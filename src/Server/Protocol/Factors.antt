-- ===== src/Server/Protocol/Factors.antt =====
-- The rows of a minibatch of the matrix factorization, from the server to a worker.
use cirrus.Prelude.{
  ℕ, ◌+◌, ◌*◌, ◌%◌, ◌^◌, ◌≤◌, ◌<◌, ◌≡◌, refl, sym, ap, ◌∙◌, true, List, [], ◌∷◌, ◌++◌, append-nil,
  arith, leb, ltb, length, take, drop, take-append, All, number_key,
}
use cirrus.Prelude.Result.{ok}
use cirrus.Prelude.Table.{lookup}
use cirrus.Floats.{Floats, IsExact}
use cirrus.Bytes.{store_u32, store_list}
use cirrus.Bytes.Laws.{
  load_u32-store_u32, length-store_u32, length-store_list, store_u32-append, store_list-in_front,
}
use cirrus.Operations.{code, get_mf_sparse_model}
use cirrus.Gradient.MfSparse.{magic_number, num_factors}
use cirrus.MfModel.{default_bias}
use cirrus.MfModel.Access.{IsServed}
use cirrus.SparseMf.{SparseMf, construct, serialize_from_dense, load_serialized, max_items}
use cirrus.SparseMf.FromDense.{users_of, items_of, row_size, load_serialized-from_dense}
use cirrus.Server.{Conn, Server, Worker, read_all, write_buffer}
use cirrus.Server.Models.{read_u32, send_sized, process_get_mf_sparse_model}
use cirrus.Server.Dispatch.{continues, serve, handle, run_operation, operation_to_f}
use cirrus.Server.Requests.{
  at_rest, answered, answered-answered, read_all-append, receive-sized, receive-u32, send_all-fits,
  serve-run_operation,
}
use cirrus.Server.Protocol.{done}
use cirrus.Client.{sparse_mf_body, receive_sparse_mf}

module _ {F D : Type 0} (fl : Floats F D) where
  -- A word that has arrived.
  read_u32-there :
      (c : Conn) (n : ℕ) (rest : List ℕ)
      → n < 2 ^ 32
      → c.incoming ≡ store_u32 n rest
      → read_u32 fl c ≡ ok (n, at_rest c rest)
  unfolding read_u32
  read_u32-there c n rest small e =
      let word : length (store_u32 n []) ≡ 4 = length-store_u32 n [] in
      let split : c.incoming ≡ store_u32 n [] ++ rest = e ∙ sym (store_u32-append n [] rest) in
      let got : read_all c 4 ≡ ok (length (store_u32 n []), store_u32 n [], at_rest c rest) =
        ap (read_all c) (sym word) ∙ read_all-append c (store_u32 n []) rest split in
      rw
        (
          got,
          store_u32-append n [] (drop (length (store_u32 n [])) (0 ∷ 0 ∷ 0 ∷ 0 ∷ [])),
          load_u32-store_u32 n (drop (length (store_u32 n [])) (0 ∷ 0 ∷ 0 ∷ 0 ∷ [])) small,
        )
        refl

module _ {F D : Type 0} (fl : Floats F D) (s : Server F D) (w : Worker) where
  -- The buffers of the worker after the ids and the rows have been written to them.
  abbrev pub rows_written : List ℕ → List ℕ → Worker
  rows_written ids bytes = record {
    buffer = store_list store_u32 ids [] ++ drop (length (store_list store_u32 ids [])) w.buffer;
    msg_buffer = bytes ++ drop (length bytes) w.msg_buffer;
  }

  run_get_mf_sparse :
      (now : ℕ) (c : Conn) (base minibatch : ℕ) (ids bytes : List ℕ)
      → base < 2 ^ 32
      → 0 < minibatch
      → 0 < length ids
      → (minibatch + length ids) * row_size < 2 ^ 32
      → length ids * 4 ≤ length w.buffer
      → length bytes ≡ (minibatch + length ids) * row_size
      → length bytes ≤ length w.msg_buffer
      → 4 + length bytes ≤ c.room
      → serialize_from_dense fl s.mf_model base minibatch
          (length ids)
          (store_list store_u32 ids (drop (length (store_list store_u32 ids [])) w.buffer))
          []
        ≡ ok bytes
      → c.incoming
        ≡ store_u32 (length (sparse_mf_body base minibatch ids)) (sparse_mf_body base minibatch ids)
      → run_operation fl get_mf_sparse_model now s c w
        ≡ ok (continues, s, done c (store_u32 (length bytes) [] ++ bytes), rows_written ids bytes)
  unfolding run_operation handle process_get_mf_sparse_model sparse_mf_body write_buffer send_sized
  run_get_mf_sparse now c base minibatch ids bytes small some_users some_items few fits size fits'
        room made e =
      let n = length ids in
      let ids' = store_list store_u32 ids [] in
      let b₃ = store_u32 magic_number ids' in
      let b₂ = store_u32 minibatch b₃ in
      let b₁ = store_u32 base b₂ in
      let body = store_u32 n b₁ in
      let stale = drop (length ids') w.buffer in
      let stale' = drop (length bytes) w.msg_buffer in
      let ids_size = length-store_list 4 store_u32 length-store_u32 ids [] in
      let word = length-store_u32 (length bytes) [] in
      let some_items' : ltb 0 n ≡ true = ground arith in
      let some_users' : ltb 0 minibatch ≡ true = ground arith in
      let ids_length : n * 4 ≡ length ids' = omega arith in
      let inside : leb (length ids') (length w.buffer) ≡ true = ground arith in
      let inside' : leb (length bytes) (length w.msg_buffer) ≡ true = ground arith in
      let to_send : (minibatch * 48 + n * 48) % 2 ^ 32 ≡ length bytes = omega arith in
      let front : ids' ++ stale ≡ store_list store_u32 ids stale =
        store_list-in_front store_u32 store_u32-append ids [] stale in
      let whole_reply : take (length bytes) (bytes ++ stale') ≡ bytes = take-append bytes stale' in
      rw
        (
          receive-u32 c (length body) body _ _ e,
          read_u32-there fl (at_rest c body) n b₁ (omega arith) refl,
          read_u32-there fl (at_rest c b₁) base b₂ small refl,
          read_u32-there fl (at_rest c b₂) minibatch b₃ (omega arith) refl,
          read_u32-there fl (at_rest c b₃) magic_number ids' (omega arith) refl,
          some_items',
          some_users',
          ids_length,
          read_all-append (at_rest c ids') ids' [] (sym (append-nil ids')),
          inside,
          front,
          made,
          inside',
          to_send,
          send_all-fits (at_rest c []) (store_u32 (length bytes) []) (omega arith),
          whole_reply,
          send_all-fits (answered (at_rest c []) (store_u32 (length bytes) [])) bytes (omega arith),
        )
        (ap
          (λ q. ok (
            continues,
            s,
            record q { is_armed = true },
            record { buffer = store_list store_u32 ids stale; msg_buffer = bytes ++ stale' },
          ))
          (answered-answered (at_rest c []) (store_u32 (length bytes) []) bytes))

  receive_sparse_mf-reply :
      (q : Conn) (minibatch n : ℕ) (bytes : List ℕ) (m : SparseMf F)
      → 0 < length bytes
      → length bytes < 2 ^ 32
      → load_serialized fl minibatch n (construct fl 0) bytes ≡ ok m
      → receive_sparse_mf fl minibatch n (at_rest q (store_u32 (length bytes) [] ++ bytes))
        ≡ ok (m, at_rest q [])
  unfolding receive_sparse_mf
  receive_sparse_mf-reply q minibatch n bytes m some_bytes small loaded =
      let word = store_u32 (length bytes) [] in
      let size : length word ≡ 4 = length-store_u32 (length bytes) [] in
      let arrived = at_rest q (word ++ bytes) in
      let got : read_all arrived 4 ≡ ok (length word, word, at_rest q bytes) =
        ap (read_all arrived) (sym size) ∙ read_all-append arrived word bytes refl in
      rw
        (
          got,
          load_u32-store_u32 (length bytes) [] small,
          receive-sized (at_rest q bytes) bytes [] (length bytes) _ _ (sym (append-nil bytes)) refl
              some_bytes,
          loaded,
        )
        refl

  -- A request for rows of known users and items that has arrived, and for which the buffers
  -- are large enough, is answered, and the client that reads the answer has the rows of the
  -- server's model.
  pub get_mf_sparse_model-serve :
      (exact : IsExact fl) (d : F) (now : ℕ) (c q : Conn) (base minibatch : ℕ) (ids : List ℕ)
      → IsServed s.mf_model
      → base + minibatch ≤ s.mf_model.users
      → All (λ id. (id < s.mf_model.items) × (id < max_items)) ids
      → 0 < minibatch
      → 0 < length ids
      → (minibatch + length ids) * row_size < 2 ^ 32
      → length ids * 4 ≤ length w.buffer
      → (minibatch + length ids) * row_size ≤ length w.msg_buffer
      → 4 + (minibatch + length ids) * row_size ≤ c.room
      → c.incoming
        ≡ store_u32 (code get_mf_sparse_model) (
            store_u32
              (length (sparse_mf_body base minibatch ids))
              (sparse_mf_body base minibatch ids))
      → (bytes : List ℕ) × (serve fl now s c w
          ≡ ok
              (continues, s, done c (store_u32 (length bytes) [] ++ bytes), rows_written ids bytes))
        × (receive_sparse_mf fl minibatch
              (length ids)
              (at_rest q (store_u32 (length bytes) [] ++ bytes))
            ≡ ok (
              record {
                users = users_of fl d s.mf_model base minibatch;
                items = items_of fl d s.mf_model ids [];
                factors = num_factors;
                global_bias = default_bias fl;
              },
              at_rest q [],
            ))
  unfolding operation_to_f lookup
  get_mf_sparse_model-serve exact d now c q base minibatch ids served users items some_users
        some_items few fits fits' room e =
      let stale = drop (length (store_list store_u32 ids [])) w.buffer in
      let body = sparse_mf_body base minibatch ids in
      let rest = store_u32 (length body) body in
      let (bytes, made, loaded, size) =
        load_serialized-from_dense fl d exact s.mf_model served base minibatch ids stale []
          (construct fl 0) users items in
      let small = served.users_few in
      (
        bytes,
        serve-run_operation fl now s c w get_mf_sparse_model rest e refl (omega arith)
            ∙ run_get_mf_sparse now (at_rest c rest) base minibatch ids bytes (omega arith)
                some_users some_items few fits (size ∙ omega arith) (omega arith) (omega arith) made
                refl,
        receive_sparse_mf-reply q minibatch (length ids) bytes _ (omega arith) (omega arith) loaded,
      )
