-- ===== src/Server/Protocol/Models.antt =====
-- Gradients that are sent and models that are fetched, from the client to the server and back.
use cirrus.Prelude.{
  ℕ, suc, ◌+◌, ◌-◌, ◌*◌, ◌%◌, ◌^◌, ◌≤◌, ◌<◌, ◌≡◌, refl, sym, ap, ◌∙◌, true, false, List, [], ◌∷◌,
  ◌++◌, append-nil, arith, leb, ltb, length, take, drop, All, get_or, number_key, ◌==◌, take_all,
}
use cirrus.Prelude.Result.{Result, ok}
use cirrus.Floats.{Floats, IsExact}
use cirrus.Bytes.{store_u32, store_float, store_list}
use cirrus.Bytes.Laws.{
  load_u32-store_u32, length-store_u32, length-store_list, length-store_float, store_u32-append,
  store_list-in_front,
}
use cirrus.Operations.{send_lr_gradient, get_lr_sparse_model}
use cirrus.Gradient.LrSparse as LrSparse
use cirrus.SparseLr.{SparseLr, get_nth_weight-in}
use cirrus.Optimizer.{Method, sgd_update, edit_weight}
use cirrus.Server.{Conn, Server, Worker, write_buffer}
use cirrus.Server.Models.{
  Served, receive_body, count_gradient, process_send_lr_gradient, process_get_lr_sparse_model,
  weights_of, max_weights,
}
use cirrus.Server.Dispatch.{continues, handle, run_operation}
use cirrus.Server.Requests.{at_rest, read_all-append, receive-u32, send_all-fits}
use cirrus.Server.Protocol.{done}

-- The worker's buffer after a body has been read into it.
abbrev pub filled : Worker → List ℕ → Worker
filled w body = record w { buffer = body ++ drop (length body) w.buffer }

module _ {F D : Type 0} (fl : Floats F D) (s : Server F D) (w : Worker) where
  receive_body-append :
      (c : Conn) (body : List ℕ) (next : Conn → Worker → Result (Served F D))
      → c.incoming ≡ store_u32 (length body) body
      → 0 < length body
      → length body ≤ length w.buffer
      → length body < 2 ^ 32
      → receive_body fl s w c next ≡ next (at_rest c []) (filled w body)
  unfolding receive_body write_buffer
  receive_body-append c body next e some_bytes fits small =
      let inside : ltb (length w.buffer) (length body) ≡ false = ground arith in
      let inside' : leb (length body) (length w.buffer) ≡ true = ground arith in
      let more : (length body == 0) ≡ false = ground arith in
      rw
        (
          receive-u32 c (length body) body _ _ e,
          load_u32-store_u32 (length body) [] small,
          inside,
          read_all-append (at_rest c body) body [] (sym (append-nil body)),
          inside',
          more,
        )
        refl

  pub run_send_lr :
      (exact : IsExact fl) (now : ℕ) (c : Conn) (g : LrSparse.LrSparseGradient F)
      (method : Method D) (model : SparseLr F)
      → LrSparse.IsSendable fl g
      → LrSparse.serialized_size fl g ≤ length w.buffer
      → LrSparse.serialized_size fl g < 2 ^ 32
      → sgd_update fl s.opt_method g.weights s.lr_model ≡ ok (method, model)
      → c.incoming ≡ store_u32 (length (LrSparse.serialize fl g [])) (LrSparse.serialize fl g [])
      → run_operation fl send_lr_gradient now s c w
        ≡ ok (
          continues,
          count_gradient fl (record s { lr_model = model; opt_method = method }),
          record c { incoming = []; is_armed = true },
          filled w (LrSparse.serialize fl g []),
        )
  unfolding run_operation handle process_send_lr_gradient
  run_send_lr exact now c g method model sendable fits small updated e =
      let body = LrSparse.serialize fl g [] in
      let size = LrSparse.length-serialize fl g [] in
      let positive : 0 < LrSparse.serialized_size fl g = LrSparse.serialized_size-positive fl g in
      rw
        (
          receive_body-append c body _ e (omega arith) (omega arith) (omega arith),
          LrSparse.serialize-append fl g [] (drop (length body) w.buffer),
          LrSparse.lr_sparse_round_trip fl exact g (drop (length body) w.buffer) sendable,
          updated,
        )
        refl

  -- The weights that are sent for the entries, as the method edits them.
  pub edited : F → List ℕ → List F
  edited d [] = []
  edited d (index ∷ ids) =
      fl.narrow (edit_weight fl s.opt_method (fl.widen (get_or s.lr_model.weights index d)))
      ∷ edited d ids

  pub length-edited : (d : F) (ids : List ℕ) → length (edited d ids) ≡ length ids
  unfolding edited
  length-edited d [] = refl
  length-edited d (index ∷ ids) = ap suc (length-edited d ids)

  weights_of-edited :
      (d : F) (room : ℕ) (ids later : List ℕ)
      → length ids ≤ room
      → All (λ id. (id < length s.lr_model.weights) × (id < 2 ^ 32)) ids
      → weights_of fl s room (length ids) (store_list store_u32 ids later)
        ≡ ok (store_list (store_float fl) (edited d ids) [])
  unfolding weights_of edited store_list
  weights_of-edited d room [] later fits h = refl
  weights_of-edited d room (index ∷ ids) later fits ((h, small), hs) =
      let more : ltb 0 room ≡ true = ground arith in
      rw
        (
          load_u32-store_u32 index (store_list store_u32 ids later) small,
          get_nth_weight-in fl s.lr_model index d h,
          more,
          weights_of-edited d (room - 1) ids later (omega arith) hs,
        )
        refl

  pub run_get_lr_sparse :
      (d : F) (now : ℕ) (c : Conn) (ids : List ℕ)
      → length ids < max_weights
      → All (λ id. (id < length s.lr_model.weights) × (id < 2 ^ 32)) ids
      → 4 + length ids * 4 ≤ length w.buffer
      → length ids * 4 ≤ c.room
      → c.incoming
        ≡ store_u32
            (length (store_u32 (length ids) (store_list store_u32 ids [])))
            (store_u32 (length ids) (store_list store_u32 ids []))
      → run_operation fl get_lr_sparse_model now s c w
        ≡ ok (
          continues,
          s,
          done c (store_list (store_float fl) (edited d ids) []),
          filled w (store_u32 (length ids) (store_list store_u32 ids [])),
        )
  unfolding run_operation handle process_get_lr_sparse_model
  run_get_lr_sparse d now c ids few known fits room e =
      let n = length ids in
      let body = store_u32 n (store_list store_u32 ids []) in
      let stale = drop (length body) w.buffer in
      let reply = store_list (store_float fl) (edited d ids) [] in
      let size = length-store_u32 n (store_list store_u32 ids []) in
      let size' = length-store_list 4 store_u32 length-store_u32 ids [] in
      let reply_size =
        length-store_list 4 (store_float fl) (length-store_float fl) (edited d ids) [] in
      let same = length-edited d ids in
      let small : n * 4 % 2 ^ 32 ≡ n * 4 = omega arith in
      let allowed : ltb (n * 4) 1_048_576 ≡ true = ground arith in
      let whole_reply : take (n * 4) reply ≡ reply =
        ap (λ k. take k reply) (omega arith) ∙ take_all reply in
      rw
        (
          receive_body-append c body _ e (omega arith) (omega arith) (omega arith),
          store_u32-append n (store_list store_u32 ids []) stale,
          store_list-in_front store_u32 store_u32-append ids [] stale,
          load_u32-store_u32 n (store_list store_u32 ids stale) (omega arith),
          small,
          allowed,
          weights_of-edited d max_weights ids stale (omega arith) known,
          whole_reply,
          send_all-fits (at_rest c []) reply (omega arith),
        )
        refl
