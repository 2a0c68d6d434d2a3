-- ===== src/Server/Protocol/Training.antt =====
-- What a worker does in each round with the logistic regression model of the server.
use cirrus.Prelude.{
  ℕ, ◌+◌, ◌*◌, ◌^◌, ◌≤◌, ◌<◌, ◌≡◌, refl, sym, ap, ◌∙◌, true, List, [], ◌++◌, arith, length, All,
  number_key,
}
use cirrus.Prelude.Result.{ok}
use cirrus.Prelude.Table.{lookup}
use cirrus.Floats.{Floats, IsExact}
use cirrus.Bytes.{store_u32, store_float, store_list}
use cirrus.Bytes.Laws.{length-store_list, length-store_float, load_floats-store_floats}
use cirrus.Operations.{code, send_lr_gradient, get_lr_sparse_model}
use cirrus.Gradient.LrSparse as LrSparse
use cirrus.SparseLr.{SparseLr}
use cirrus.Optimizer.{Method, sgd_update}
use cirrus.Optimizer.Frame.{InRange, IsPaired, Touches, sgd_update-Touches}
use cirrus.Server.{Conn, Server, Worker}
use cirrus.Server.Models.{count_gradient, max_weights}
use cirrus.Server.Dispatch.{continues, serve, operation_to_f}
use cirrus.Server.Requests.{at_rest, read_all-append, serve-run_operation}
use cirrus.Server.Protocol.{done}
use cirrus.Server.Protocol.Models.{filled, run_send_lr, edited, length-edited, run_get_lr_sparse}
use cirrus.Client.{receive_weights}

-- The message of `send_lr_gradient` and that of `get_lr_sparse_model` for the given indices.
abbrev pub gradient_message : {F D : Type 0} → Floats F D → LrSparse.LrSparseGradient F → List ℕ
gradient_message fl g =
    store_u32 (code send_lr_gradient)
      (store_u32 (length (LrSparse.serialize fl g [])) (LrSparse.serialize fl g []))

abbrev pub indices_body : List ℕ → List ℕ
indices_body ids = store_u32 (length ids) (store_list store_u32 ids [])

abbrev pub indices_message : List ℕ → List ℕ
indices_message ids =
    store_u32 (code get_lr_sparse_model) (store_u32 (length (indices_body ids)) (indices_body ids))

module _ {F D : Type 0} (fl : Floats F D) (s : Server F D) (w : Worker) where
  -- A gradient with indices of the model that has arrived is applied by the server's method:
  -- the new model and method are those of its sgd_update, the update is counted, and only
  -- weights and histories of the gradient's indices change.
  pub send_lr_gradient-serve :
      (exact : IsExact fl) (d : F) (now : ℕ) (c : Conn) (g : LrSparse.LrSparseGradient F)
      → LrSparse.IsSendable fl g
      → IsPaired s.lr_model
      → InRange (length s.lr_model.weights) g.weights
      → LrSparse.serialized_size fl g ≤ length w.buffer
      → c.incoming ≡ gradient_message fl g
      → (method : Method D) × (model : SparseLr F) × (serve fl now s c w
          ≡ ok (
            continues,
            count_gradient fl (record s { lr_model = model; opt_method = method }),
            record c { incoming = []; is_armed = true },
            filled w (LrSparse.serialize fl g []),
          ))
        × (sgd_update fl s.opt_method g.weights s.lr_model ≡ ok (method, model))
        × Touches d g.weights s.lr_model model
  unfolding operation_to_f lookup
  send_lr_gradient-serve exact d now c g sendable paired inside fits e =
      let body = LrSparse.serialize fl g [] in
      let rest = store_u32 (length body) body in
      let (method, model, updated, touches) =
        sgd_update-Touches fl d s.opt_method g.weights s.lr_model paired inside in
      (
        method,
        model,
        serve-run_operation fl now s c w send_lr_gradient rest e refl (omega arith)
            ∙ run_send_lr fl s w exact now (at_rest c rest) g method model sendable fits
                (LrSparse.serialized_size-small fl g sendable.few_weights) updated refl,
        updated,
        touches,
      )

  receive_weights-reply :
      (exact : IsExact fl) (q : Conn) (weights : List F) (later : List ℕ)
      → q.incoming ≡ store_list (store_float fl) weights [] ++ later
      → receive_weights fl (length weights) q ≡ ok (weights, at_rest q later)
  unfolding receive_weights
  receive_weights-reply exact q weights later e =
      let bytes = store_list (store_float fl) weights [] in
      let size : length bytes ≡ length weights * 4 =
        omega (arith, length-store_list 4 (store_float fl) (length-store_float fl) weights []) in
      rw (sym size, read_all-append q bytes later e, load_floats-store_floats fl exact weights [])
        refl

  -- A request for fewer than 2 ^ 18 weights of the model that has arrived is answered, and
  -- the client reads the weights of its indices, in order, as the server's method edits them.
  pub get_lr_sparse_model-serve :
      (exact : IsExact fl) (d : F) (now : ℕ) (c q : Conn) (ids later : List ℕ)
      → length ids < max_weights
      → All (λ id. (id < length s.lr_model.weights) × (id < 2 ^ 32)) ids
      → 4 + length ids * 4 ≤ length w.buffer
      → length ids * 4 ≤ c.room
      → c.incoming ≡ indices_message ids
      → q.incoming ≡ store_list (store_float fl) (edited fl s w d ids) [] ++ later
      → (serve fl now s c w
          ≡ ok (
            continues,
            s,
            done c (store_list (store_float fl) (edited fl s w d ids) []),
            filled w (indices_body ids),
          ))
        × (receive_weights fl (length ids) q ≡ ok (edited fl s w d ids, at_rest q later))
  unfolding operation_to_f lookup
  get_lr_sparse_model-serve exact d now c q ids later few known fits room e reply =
      let rest = store_u32 (length (indices_body ids)) (indices_body ids) in
      (
        serve-run_operation fl now s c w get_lr_sparse_model rest e refl (omega arith)
            ∙ run_get_lr_sparse fl s w d now (at_rest c rest) ids few known fits room refl,
        ap (λ n. receive_weights fl n q) (sym (length-edited fl s w d ids))
            ∙ receive_weights-reply exact q (edited fl s w d ids) later reply,
      )
