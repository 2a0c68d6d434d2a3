-- ===== src/Socket/Tests.antt =====
-- A socket that moves one byte with each call.
use cirrus.Prelude.{
  ℕ, zero, suc, ◌≡◌, refl, ◌≤◌, ◌<◌, Option, some, List, [], ◌∷◌, ◌++◌, arith, take, length,
}
use cirrus.Socket.{Reply, received, Calls, ReadAll, returned, read_all, send_all}
use cirrus.Socket.Stream.{IsStream, Reads, Sends, read_all-Reads, send_all-Sends}

abbrev Bytewise : Type 0
Bytewise = List ℕ × List ℕ

abbrev read_one : Bytewise → ℕ → Reply Bytewise
read_one ([], d) n = received [] ([], d)
read_one (b ∷ bs, d) zero = received [] (b ∷ bs, d)
read_one (b ∷ bs, d) (suc n) = received (b ∷ []) (bs, d)

abbrev send_one : Bytewise → List ℕ → Option (ℕ × Bytewise)
send_one (i, d) [] = some (0, (i, d))
send_one (i, d) (b ∷ bs) = some (1, (i, d ++ (b ∷ [])))

abbrev bytewise : Calls Bytewise
bytewise = record { read = read_one; send = send_one }

read_one_reads :
    (s : Bytewise) (n : ℕ) (bs : List ℕ) (s' : Bytewise)
    → read_one s n ≡ received bs s'
    → (s.0 ≡ bs ++ s'.0) × (length bs ≤ n)
read_one_reads ([], d) n bs s' e = ground arith
read_one_reads (b ∷ i, d) zero bs s' e = ground arith
read_one_reads (b ∷ i, d) (suc n) bs s' e = ground arith

read_one_ends :
    (s : Bytewise) (n : ℕ) (s' : Bytewise) → read_one s n ≡ received [] s' → 0 < n → s.0 ≡ []
read_one_ends ([], d) n s' e h = refl
read_one_ends (b ∷ i, d) zero s' e h = absurd (omega arith)
read_one_ends (b ∷ i, d) (suc n) s' e h = cc

send_one_sends :
    (s : Bytewise) (bs : List ℕ) (n : ℕ) (s' : Bytewise)
    → send_one s bs ≡ some (n, s')
    → 0 < length bs
    → (0 < n) × (n ≤ length bs) × (s'.1 ≡ s.1 ++ take n bs)
send_one_sends (i, d) [] n s' e h = absurd (omega arith)
send_one_sends (i, d) (b ∷ bs) n s' e h = ground arith

bytewise-IsStream : IsStream bytewise
bytewise-IsStream = record {
  pending = λ s. s.0;
  delivered = λ s. s.1;
  reads = read_one_reads;
  ends = read_one_ends;
  sends = send_one_sends;
}

read_two : read_all bytewise (7 ∷ 8 ∷ 9 ∷ [], []) 2 ≡ some (returned 2 (7 ∷ 8 ∷ []) (9 ∷ [], []))
unfolding read_all
read_two = refl

-- The number 0 stands for the end of file and for a read of no bytes.
read_short_and_empty :
    (read_all bytewise (7 ∷ [], []) 2 ≡ some (returned 0 (7 ∷ []) ([], [])))
    × (read_all bytewise (7 ∷ [], []) 0 ≡ some (returned 0 [] (7 ∷ [], [])))
unfolding read_all
read_short_and_empty = (refl, refl)

read_all-Reads_example :
    (r : ReadAll Bytewise) × (read_all bytewise (7 ∷ 8 ∷ 9 ∷ [], []) 2 ≡ some r)
    × Reads bytewise-IsStream (7 ∷ 8 ∷ 9 ∷ [], []) [] 2 r
read_all-Reads_example = read_all-Reads bytewise-IsStream (7 ∷ 8 ∷ 9 ∷ [], []) 2

send_all-Sends_example :
    (r : Option (ℕ × Bytewise)) × (send_all bytewise ([], 1 ∷ []) (2 ∷ 3 ∷ []) ≡ some r)
    × Sends bytewise-IsStream ([], 1 ∷ []) 0 (2 ∷ 3 ∷ []) r
send_all-Sends_example = send_all-Sends bytewise-IsStream ([], 1 ∷ []) (2 ∷ 3 ∷ [])
