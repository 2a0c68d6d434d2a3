-- ===== src/Socket.antt =====
-- `read_all` and `send_all` of src/Utils.cpp, over the system calls `read` and `send`.
pub mod Stream
mod Tests
use cirrus.Prelude.{
  ℕ, zero, suc, ◌+◌, ◌-◌, false, true, Option, none, some, List, [], ◌∷◌, ◌++◌, ltb, length, drop,
  if◌then◌else◌,
}

-- What a call of `read` gives: -1, or the bytes that it wrote, which are none at the end of file.
pub data Reply (S : Type 0) : Type 0 where
  failed : S → Reply S
  received : List ℕ → S → Reply S

-- The two calls on one socket, with the socket's state; `send` is given the bytes, and returns how
-- many of them it took, or -1.
pub record Calls (S : Type 0) : Type 0 where
  pub read : S → ℕ → Reply S
  pub send : S → List ℕ → Option (ℕ × S)

-- How a call of `read_all` ends: it throws, or returns a number with the bytes in the buffer.
pub data ReadAll (S : Type 0) : Type 0 where
  threw : S → ReadAll S
  returned : ℕ → List ℕ → S → ReadAll S

-- What the loop does with a reply; `go` is the next round.
abbrev pub after_read :
    {S : Type 0} → (S → List ℕ → Option (ReadAll S)) → List ℕ → Reply S → Option (ReadAll S)
after_read go bytes (failed s) = some (threw s)
after_read go bytes (received [] s) = some (returned 0 bytes s)
after_read go bytes (received (b ∷ bs) s) = go s (bytes ++ (b ∷ bs))

abbrev pub after_send :
    {S : Type 0} → (ℕ → S → Option (Option (ℕ × S))) → Option (ℕ × S) → Option (Option (ℕ × S))
after_send go none = some none
after_send go (some (n, s)) = go n s

module _ {S : Type 0} (sys : Calls S) where
  -- The loop with `bytes` in the buffer; the outer `none` says that the fuel ran out.
  unfoldable pub read_loop : ℕ → S → List ℕ → ℕ → Option (ReadAll S)
  read_loop zero s bytes len = none
  read_loop (suc fuel) s bytes len =
      if ltb (length bytes) len
      then after_read (λ s' bytes'. read_loop fuel s' bytes' len) bytes
          (sys.read s (len - length bytes))
      else some (returned (length bytes) bytes s)

  -- Each round reads a byte at least.
  pub read_all : S → ℕ → Option (ReadAll S)
  unfolding read_loop
  read_all s len = read_loop (len + 1) s [] len

  -- `left` is what is not sent yet. The result is `none` for -1, or the number of bytes sent.
  unfoldable pub send_loop : ℕ → S → ℕ → List ℕ → Option (Option (ℕ × S))
  send_loop zero s sent left = none
  send_loop (suc fuel) s sent [] = some (some (sent, s))
  send_loop (suc fuel) s sent (b ∷ bs) =
      after_send (λ n s'. send_loop fuel s' (sent + n) (drop n (b ∷ bs))) (sys.send s (b ∷ bs))

  pub send_all : S → List ℕ → Option (Option (ℕ × S))
  unfolding send_loop
  send_all s bytes = send_loop (length bytes + 1) s 0 bytes
