-- ===== src/Server/Protocol/Values.antt =====
-- `set_value` and `get_value` from the client to the server and back.
use cirrus.Prelude.{
  ℕ, ◌+◌, ◌-◌, ◌^◌, ◌≤◌, ◌<◌, ◌≡◌, refl, sym, ap, ◌∙◌, true, false, some, none, List, [], ◌∷◌, ◌++◌,
  append-nil, zero, suc, replicate, arith, ◌==◌, ==_refl, length, length-append, length-replicate,
  text_key, number_key, All,
}
use cirrus.Prelude.Result.{ok, err, runtime_error}
use cirrus.Prelude.Table.{lookup, insert, lookup-insert, same_key_refl}
use cirrus.Floats.{Floats}
use cirrus.Bytes.{store_u32}
use cirrus.Bytes.Laws.{load_u32-store_u32, length-store_u32}
use cirrus.Operations.{code, get_value, set_value, key_size}
use cirrus.Server.{Conn, Server, Worker, read_all}
use cirrus.Server.Values.{c_string, process_set_value, process_get_value, reply_value}
use cirrus.Server.Dispatch.{continues, serve, handle, keep, run_operation, operation_to_f}
use cirrus.Server.Requests.{
  at_rest, answered, answered-answered, read_all-append, receive-sized, send_all-fits,
  serve-run_operation,
}
use cirrus.Server.Protocol.{done}
use cirrus.Client.{key_char, set_value_message, get_value_message, receive_value, read_exactly}

-- A key as the client takes it: at most ten bytes, none of them 0.
pub record IsKey (key : List ℕ) : Type 0 where
  pub short : length key ≤ key_size
  pub no_zeros : All (λ b. (b == 0) ≡ false) key

length-key_char : (key : List ℕ) → length key ≤ key_size → length (key_char key) ≡ key_size
unfolding key_char
length-key_char key h =
    let padding = key_size - length key in
    omega (arith, length-append key (replicate padding 0), length-replicate {A = ℕ} padding 0)

c_string-padded :
    (key : List ℕ) (n : ℕ) → All (λ b. (b == 0) ≡ false) key → c_string (key ++ replicate n 0) ≡ key
unfolding c_string
c_string-padded [] zero h = refl
c_string-padded [] (suc n) h = refl
c_string-padded (b ∷ key) n (h, hs) = rw (h, c_string-padded key n hs) refl

-- The server has the client's key.
c_string-key_char : (key : List ℕ) → IsKey key → c_string (key_char key) ≡ key
unfolding key_char
c_string-key_char key k = c_string-padded key (key_size - length key) k.no_zeros

read_exactly-append :
    (d : Conn) (bytes later : List ℕ) (n : ℕ)
    → d.incoming ≡ bytes ++ later
    → length bytes ≡ n
    → read_exactly d n ≡ ok (bytes, at_rest d later)
unfolding read_exactly
read_exactly-append d bytes later n e size =
    ap (read_exactly d) (sym size)
    ∙ rw (read_all-append d bytes later e, ==_refl (length bytes)) refl

length-word : (n : ℕ) → length (store_u32 n []) ≡ 4
length-word n = length-store_u32 n []

word_append : (n : ℕ) (rest : List ℕ) → store_u32 n [] ++ rest ≡ store_u32 n rest
unfolding store_u32
word_append n rest = refl

-- A value that arrives after its size.
pub receive_value-some :
    (d : Conn) (value later : List ℕ)
    → 0 < length value
    → length value < 2 ^ 32
    → d.incoming ≡ store_u32 (length value) [] ++ (value ++ later)
    → receive_value d ≡ ok (some value, at_rest d later)
unfolding receive_value
receive_value-some d value later some_bytes small e =
    let more : (length value == 0) ≡ false = ground arith in
    rw
      (
        read_exactly-append d (store_u32 (length value) []) (value ++ later) 4 e
            (length-word (length value)),
        load_u32-store_u32 (length value) [] small,
        more,
        read_exactly-append (at_rest d (value ++ later)) value later (length value) refl refl,
      )
      refl

-- The one byte that answers an unknown key, and the end of file after it, make the client throw.
receive_value-short :
    (d : Conn) → d.incoming ≡ 0 ∷ [] → d.is_broken ≡ false → receive_value d ≡ err runtime_error
unfolding receive_value read_exactly read_all
receive_value-short d e fine = rw (e, fine) refl

module _ {F D : Type 0} (fl : Floats F D) (now : ℕ) (s : Server F D) (w : Worker) where
  run_set_value :
      (c : Conn) (key value : List ℕ)
      → IsKey key
      → 0 < length value
      → length value < 2 ^ 32
      → c.incoming ≡ key_char key ++ (store_u32 (length value) [] ++ value)
      → run_operation fl set_value now s c w
        ≡ ok (
          continues,
          record s { key_value_map = insert key (length value, value) s.key_value_map },
          record c { incoming = []; is_armed = true },
          w,
        )
  unfolding run_operation handle keep process_set_value
  run_set_value c key value k some_bytes small e =
      let size = store_u32 (length value) [] in
      rw
        (
          receive-sized c (key_char key) (size ++ value) key_size _ _ e
              (length-key_char key k.short) (omega arith),
          receive-sized (at_rest c (size ++ value)) size value 4 _ _ refl
              (length-word (length value)) (omega arith),
          load_u32-store_u32 (length value) [] small,
          receive-sized (at_rest c value) value [] (length value) _ _ (sym (append-nil value)) refl
              some_bytes,
          c_string-key_char key k,
        )
        refl

  run_get_value :
      (c : Conn) (key value : List ℕ)
      → IsKey key
      → c.incoming ≡ key_char key
      → lookup key s.key_value_map ≡ some (length value, value)
      → 4 + length value ≤ c.room
      → run_operation fl get_value now s c w
        ≡ ok (continues, s, done c (store_u32 (length value) [] ++ value), w)
  unfolding run_operation handle keep process_get_value reply_value
  run_get_value c key value k e there room =
      let size = store_u32 (length value) [] in
      let word = length-word (length value) in
      rw
        (
          receive-sized c (key_char key) [] key_size _ _ (e ∙ sym (append-nil (key_char key)))
              (length-key_char key k.short) (omega arith),
          c_string-key_char key k,
          there,
          send_all-fits (at_rest c []) size (omega arith),
          send_all-fits (answered (at_rest c []) size) value (omega arith),
        )
        (ap (λ q. ok (continues, s, record q { is_armed = true }, w))
          (answered-answered (at_rest c []) size value))

  run_get_missing :
      (c : Conn) (key : List ℕ)
      → IsKey key
      → c.incoming ≡ key_char key
      → lookup key s.key_value_map ≡ none
      → 1 ≤ c.room
      → run_operation fl get_value now s c w ≡ ok (continues, s, done c (0 ∷ []), w)
  unfolding run_operation handle keep process_get_value reply_value
  run_get_missing c key k e missing room =
      rw
        (
          receive-sized c (key_char key) [] key_size _ _ (e ∙ sym (append-nil (key_char key)))
              (length-key_char key k.short) (omega arith),
          c_string-key_char key k,
          missing,
          send_all-fits (at_rest c []) (0 ∷ []) room,
        )
        refl

  -- A request for a key that the server does not have is answered by one byte, where the
  -- client reads four: when the connection ends after it, the client throws.
  pub get_value-missing :
      (c d : Conn) (key : List ℕ)
      → IsKey key
      → lookup key s.key_value_map ≡ none
      → c.incoming ≡ get_value_message key
      → 1 ≤ c.room
      → d.incoming ≡ 0 ∷ []
      → d.is_broken ≡ false
      → (serve fl now s c w ≡ ok (continues, s, done c (0 ∷ []), w))
        × (receive_value d ≡ err runtime_error)
  unfolding get_value_message operation_to_f lookup
  get_value-missing c d key k missing e room reply fine = (
    serve-run_operation fl now s c w get_value (key_char key) (e ∙ word_append (code get_value) _)
          refl (omega arith)
        ∙ run_get_missing (at_rest c (key_char key)) key k refl missing room,
    receive_value-short d reply fine,
  )

module _ {F D : Type 0} (fl : Floats F D) (now : ℕ) (s : Server F D) (w : Worker) where
  -- A value that is not empty is stored under a key of at most ten bytes that are not 0, and
  -- the next request for the key gives the client that value.
  pub value_round_trip :
      (c c' d : Conn) (key value later : List ℕ)
      → IsKey key
      → 0 < length value
      → length value < 2 ^ 32
      → c.incoming ≡ set_value_message key value
      → c'.incoming ≡ get_value_message key
      → 4 + length value ≤ c'.room
      → d.incoming ≡ store_u32 (length value) [] ++ (value ++ later)
      → (s' : Server F D) × (serve fl now s c w
          ≡ ok (continues, s', record c { incoming = []; is_armed = true }, w))
        × (serve fl now s' c' w
            ≡ ok (continues, s', done c' (store_u32 (length value) [] ++ value), w))
        × (receive_value d ≡ ok (some value, at_rest d later))
  unfolding set_value_message get_value_message operation_to_f lookup
  value_round_trip c c' d key value later k some_bytes small e e' room reply =
      let body = key_char key ++ (store_u32 (length value) [] ++ value) in
      (
        changed,
        serve-run_operation fl now s c w set_value body (e ∙ word_append (code set_value) body) refl
              (omega arith)
            ∙ run_set_value fl now s w (at_rest c body) key value k some_bytes small refl,
        serve-run_operation fl now changed c' w get_value (key_char key)
              (e' ∙ word_append (code get_value) (key_char key)) refl (omega arith)
            ∙ run_get_value fl now changed w (at_rest c' (key_char key)) key value k refl
                (lookup-insert key key (length value, value) s.key_value_map
                  ∙ rw (same_key_refl key) refl)
                room,
        receive_value-some d value later some_bytes small reply,
      )
    where
      changed : Server F D
      changed = record s { key_value_map = insert key (length value, value) s.key_value_map }
