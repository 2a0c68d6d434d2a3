-- ===== src/Server/Values.antt =====
-- The key-value store: `process_set_value` and `process_get_value` of src/PSSparseServerTask.cpp.
use cirrus.Prelude.{
  ℕ, true, false, Option, none, some, List, [], ◌∷◌, ◌==◌, if◌then◌else◌, text_key,
}
use cirrus.Prelude.Result.{Result, ok, ◌>>=◌}
use cirrus.Prelude.Table.{lookup, insert}
use cirrus.Bytes.{store_u32, load_u32}
use cirrus.Operations.{key_size}
use cirrus.Server.{Conn, Server, Handled, receive, send_all, failed}

-- `std::string(key)`: the bytes before the first 0. Zeros follow the key in both handlers.
unfoldable pub c_string : List ℕ → List ℕ
c_string [] = []
c_string (b ∷ bs) = if b == 0 then [] else b ∷ c_string bs

module _ {F D : Type 0} where
  unfoldable pub process_set_value : Server F D → Conn → Result (Handled F D)
  process_set_value s c = receive c key_size (failed s) λ key c₁. receive c₁ 4 (failed s) λ size c₂.
      do
        (value_size, rest) ← load_u32 size
        receive c₂ value_size (failed s) λ value c₃. ok (
          true,
          record s { key_value_map = insert (c_string key) (value_size, value) s.key_value_map },
          c₃,
        )

  -- A key that is not in the map is answered by the one byte 0.
  unfoldable pub reply_value : Option (ℕ × List ℕ) → Server F D → Conn → Result (Handled F D)
  reply_value none s c = let (sent, c') = send_all c (0 ∷ []) in ok (sent, s, c')
  reply_value (some (value_size, value)) s c =
      let (sent, c₁) = send_all c (store_u32 value_size []) in
      let (sent', c₂) = send_all c₁ value in if sent then ok (sent', s, c₂) else ok (false, s, c₁)

  unfoldable pub process_get_value : Server F D → Conn → Result (Handled F D)
  process_get_value s c =
      receive c key_size (failed s)
        λ key c'. reply_value (lookup (c_string key) s.key_value_map) s c'
