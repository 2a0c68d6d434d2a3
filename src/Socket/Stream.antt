-- ===== src/Socket/Stream.antt =====
-- What the two loops do, whatever pieces the system calls work in.
use cirrus.Prelude.{
  ℕ, zero, suc, ◌+◌, ◌-◌, ◌≤◌, ◌<◌, ◌≡◌, refl, sym, ap, subst, ◌∙◌, Option, none, some, List, [],
  ◌∷◌, ◌++◌, append_assoc, append-nil, arith, ltb, leb, if◌then◌else◌, length, length-append, take,
  drop, Bool-cases, inl, inr, take-append, drop-append, take-append-drop, length-drop,
}
use cirrus.Socket.{
  after_read, after_send, Reply, failed, received, Calls, ReadAll, threw, returned, read_loop,
  read_all, send_loop, send_all,
}

-- What the loops rely on. `pending` is what the peer has sent and still sends, up to the end of
-- file; `delivered` is what the peer has been sent.
pub record IsStream {S : Type 0} (sys : Calls S) : Type 0 where
  pub pending : S → List ℕ
  pub delivered : S → List ℕ
  pub reads :
      (s : S) (n : ℕ) (bs : List ℕ) (s' : S)
      → sys.read s n ≡ received bs s'
      → (pending s ≡ bs ++ pending s') × (length bs ≤ n)
  pub ends : (s : S) (n : ℕ) (s' : S) → sys.read s n ≡ received [] s' → 0 < n → pending s ≡ []
  pub sends :
      (s : S) (bs : List ℕ) (n : ℕ) (s' : S)
      → sys.send s bs ≡ some (n, s')
      → 0 < length bs
      → (0 < n) × (n ≤ length bs) × (delivered s' ≡ delivered s ++ take n bs)

-- A blocking read of `len` bytes from a stream: all of them, or at an earlier end of file the
-- number 0 with what there was in the buffer.
abbrev pub recv : ℕ → List ℕ → ℕ × List ℕ × List ℕ
recv len input =
    if leb len (length input) then (len, take len input, drop len input) else (0, input, [])

take_whole : (xs ys : List ℕ) (n : ℕ) → n ≡ length xs → take n (xs ++ ys) ≡ xs
take_whole xs ys n e = ap (λ k. take k (xs ++ ys)) e ∙ take-append xs ys

drop_whole : (xs ys : List ℕ) (n : ℕ) → n ≡ length xs → drop n (xs ++ ys) ≡ ys
drop_whole xs ys n e = ap (λ k. drop k (xs ++ ys)) e ∙ drop-append xs ys

take_none : (k : ℕ) → take {A = ℕ} k [] ≡ []
take_none zero = refl
take_none (suc k) = refl

drop_none : (k : ℕ) → drop {A = ℕ} k [] ≡ []
drop_none zero = refl
drop_none (suc k) = refl

take-take : (n k : ℕ) (xs : List ℕ) → take n xs ++ take k (drop n xs) ≡ take (n + k) xs
take-take zero k xs = ap (λ m. take m xs) (omega arith)
take-take (suc n) k [] = ap (λ ys. [] ++ ys) (take_none k) ∙ sym (take_none (suc n + k))
take-take (suc n) k (x ∷ xs) =
    let more : suc n + k ≡ suc (n + k) = omega arith in
    ap (λ ys. x ∷ ys) (take-take n k xs) ∙ ap (λ m. take m (x ∷ xs)) (sym more)

drop-drop : (n k : ℕ) (xs : List ℕ) → drop (n + k) xs ≡ drop k (drop n xs)
drop-drop zero k xs = ap (λ m. drop m xs) (omega arith)
drop-drop (suc n) k [] = drop_none (suc n + k) ∙ sym (drop_none k)
drop-drop (suc n) k (x ∷ xs) =
    let more : suc n + k ≡ suc (n + k) = omega arith in
    ap (λ m. drop m (x ∷ xs)) more ∙ drop-drop n k xs

module _ {S : Type 0} {sys : Calls S} (stream : IsStream sys) where
  open stream use {pending, delivered, reads, ends, sends}

  -- How the call ends, from a state in which `bytes` are read.
  abbrev pub Reads : S → List ℕ → ℕ → ReadAll S → Type 0
  Reads s bytes len (threw s') =
      (got : List ℕ) × (s₁ : S) × (pending s ≡ got ++ pending s₁)
      × (length (bytes ++ got) < len)
      × (sys.read s₁ (len - length (bytes ++ got)) ≡ failed s')
  Reads s bytes len (returned n got s') = (n, got, pending s') ≡ recv len (bytes ++ pending s)

  recv_full :
      (s : S) (bytes : List ℕ) (len : ℕ)
      → length bytes ≡ len
      → Reads s bytes len (returned (length bytes) bytes s)
  recv_full s bytes len e = ground (
    arith,
    length-append bytes (pending s),
    take_whole bytes (pending s) len (sym e),
    drop_whole bytes (pending s) len (sym e),
  )

  -- One reply, if the next round keeps its promise.
  after_read-Reads :
      (len fuel : ℕ) (go : S → List ℕ → Option (ReadAll S))
      → ((s : S) (bytes : List ℕ)
          → len - length bytes < fuel
          → length bytes ≤ len
          → (r : ReadAll S) × (go s bytes ≡ some r) × Reads s bytes len r)
      → (s : S) (bytes : List ℕ) → len - length bytes < suc fuel
      → length bytes < len
      → (reply : Reply S) → sys.read s (len - length bytes) ≡ reply
      → (r : ReadAll S) × (after_read go bytes reply ≡ some r) × Reads s bytes len r
  after_read-Reads len fuel go next s bytes f h (failed s') e =
      let same : bytes ++ [] ≡ bytes = append-nil bytes in
      (threw s', refl, ([], s, refl, rw same h, rw same e))
  after_read-Reads len fuel go next s bytes f h (received [] s') e =
      let over = ends s (len - length bytes) s' e (omega arith) in
      let same = (reads s (len - length bytes) [] s' e).0 in
      (returned 0 bytes s', refl, rw (over, append-nil) (ground (arith, over, same)))
  after_read-Reads len fuel go next s bytes f h (received (b ∷ bs) s') e =
      let (split, small) = reads s (len - length bytes) (b ∷ bs) s' e in
      let longer = length-append bytes (b ∷ bs) in
      let (r, same, got) = next s' (bytes ++ (b ∷ bs)) (omega arith) (omega arith) in
      (r, same, move r got split)
    where
      move :
          (r : ReadAll S)
          → Reads s' (bytes ++ (b ∷ bs)) len r
          → pending s ≡ (b ∷ bs) ++ pending s'
          → Reads s bytes len r
      move (threw s'') (got', s₁, left, short, failed_there) split =
          let same = append_assoc bytes (b ∷ bs) got' in
          (
            (b ∷ bs) ++ got',
            s₁,
            split ∙ ap (◌++◌ (b ∷ bs)) left ∙ sym (append_assoc (b ∷ bs) got' (pending s₁)),
            subst (λ xs. length xs < len) same short,
            subst (λ xs. sys.read s₁ (len - length xs) ≡ failed s'') same failed_there,
          )
      move (returned n got' s'') got split =
          got
          ∙ ap (recv len) (append_assoc bytes (b ∷ bs) (pending s') ∙ ap (◌++◌ bytes) (sym split))

  read_loop-Reads :
      (fuel : ℕ) (s : S) (bytes : List ℕ) (len : ℕ)
      → len - length bytes < fuel
      → length bytes ≤ len
      → (r : ReadAll S) × (read_loop sys fuel s bytes len ≡ some r) × Reads s bytes len r
  unfolding read_loop
  read_loop-Reads zero s bytes len f h = absurd (omega arith)
  read_loop-Reads (suc fuel) s bytes len f h = elim (Bool-cases (ltb (length bytes) len)) [
    | inl less ↦
        rw (less, read_loop)
          (after_read-Reads len fuel (λ s' bytes'. read_loop sys fuel s' bytes' len)
            (λ s' bytes' f' h'. read_loop-Reads fuel s' bytes' len f' h') s bytes f (ground arith)
            (sys.read s (len - length bytes)) refl)
    | inr full ↦ (
      returned (length bytes) bytes s,
      rw (full, read_loop) refl,
      recv_full s bytes len (ground arith),
    )
  ]

  -- `read_all` ends. It returns what a blocking read of the stream gives, `len` and the next
  -- `len` bytes, or 0 at an earlier end of file; or it throws, and then a read of what was
  -- missing, behind the bytes got so far, has failed.
  pub read_all-Reads :
      (s : S) (len : ℕ) → (r : ReadAll S) × (read_all sys s len ≡ some r) × Reads s [] len r
  unfolding read_all
  read_all-Reads s len = read_loop-Reads (len + 1) s [] len (omega arith) (omega arith)

  -- How a call of `send_all` ends: with -1, or with all of the bytes delivered.
  abbrev pub Sends : S → ℕ → List ℕ → Option (ℕ × S) → Type 0
  Sends s sent left none =
      (k : ℕ) × (s₁ : S) × (k < length left)
      × (delivered s₁ ≡ delivered s ++ take k left)
      × (sys.send s₁ (drop k left) ≡ none)
  Sends s sent left (some (n, s')) = (n ≡ sent + length left) × (delivered s' ≡ delivered s ++ left)

  after_send-Sends :
      (fuel sent b : ℕ) (bs : List ℕ) (go : ℕ → S → Option (Option (ℕ × S)))
      → ((n : ℕ) (s : S)
          → length (drop n (b ∷ bs)) < fuel
          → (r : Option (ℕ × S)) × (go n s ≡ some r) × Sends s (sent + n) (drop n (b ∷ bs)) r)
      → (s : S) → length (b ∷ bs) < suc fuel
      → (reply : Option (ℕ × S)) → sys.send s (b ∷ bs) ≡ reply
      → (r : Option (ℕ × S)) × (after_send go reply ≡ some r) × Sends s sent (b ∷ bs) r
  after_send-Sends fuel sent b bs go next s f none e =
      (none, refl, (0, s, omega arith, sym (append-nil (delivered s)), e))
  after_send-Sends fuel sent b bs go next s f (some (n, s')) e =
      let (pos, small, made) = sends s (b ∷ bs) n s' e (omega arith) in
      let (r, same, got) = next n s' (omega (arith, length-drop n (b ∷ bs))) in
      (r, same, move r got small made)
    where
      move :
          (r : Option (ℕ × S))
          → Sends s' (sent + n) (drop n (b ∷ bs)) r
          → n ≤ length (b ∷ bs)
          → delivered s' ≡ delivered s ++ take n (b ∷ bs)
          → Sends s sent (b ∷ bs) r
      move none (k, s₁, short, all, failed_there) small made = (
        n + k,
        s₁,
        omega (arith, length-drop n (b ∷ bs)),
        all
            ∙ ap (λ xs. xs ++ take k (drop n (b ∷ bs))) made
            ∙ append_assoc (delivered s) (take n (b ∷ bs)) (take k (drop n (b ∷ bs)))
            ∙ ap (◌++◌ (delivered s)) (take-take n k (b ∷ bs)),
        ap (sys.send s₁) (drop-drop n k (b ∷ bs)) ∙ failed_there,
      )
      move (some (m, s'')) (count, all) small made = (
        omega (arith, length-drop n (b ∷ bs)),
        rw (all, made, append_assoc, take-append-drop n (b ∷ bs)) refl,
      )

  send_loop-Sends :
      (fuel : ℕ) (s : S) (sent : ℕ) (left : List ℕ)
      → length left < fuel
      → (r : Option (ℕ × S)) × (send_loop sys fuel s sent left ≡ some r) × Sends s sent left r
  unfolding send_loop
  send_loop-Sends zero s sent left f = absurd (omega arith)
  send_loop-Sends (suc fuel) s sent [] f =
      (some (sent, s), refl, (omega arith, sym (append-nil (delivered s))))
  send_loop-Sends (suc fuel) s sent (b ∷ bs) f =
      after_send-Sends fuel sent b bs (λ n s'. send_loop sys fuel s' (sent + n) (drop n (b ∷ bs)))
        (λ n s' f'. send_loop-Sends fuel s' (sent + n) (drop n (b ∷ bs)) f') s f
        (sys.send s (b ∷ bs)) refl

  -- `send_all` ends. It returns the number of the bytes, and has then delivered all of them,
  -- in order and once; or -1, and then a send of what was left, behind the bytes delivered so
  -- far, has failed.
  pub send_all-Sends :
      (s : S) (bytes : List ℕ)
      → (r : Option (ℕ × S)) × (send_all sys s bytes ≡ some r) × Sends s 0 bytes r
  unfolding send_all
  send_all-Sends s bytes = send_loop-Sends (length bytes + 1) s 0 bytes (omega arith)
