-- ===== src/Server/Requests.antt =====
-- What a handler reads of a message that has arrived, and what it sends.
use cirrus.Prelude.{
  ℕ, ◌-◌, ◌^◌, ◌≤◌, ◌<◌, ◌≡◌, refl, sym, ap, ap₂, append_assoc, ◌∙◌, true, false, some, List, [],
  ◌++◌, arith, leb, ◌==◌, length, length-append, take-append, drop-append, number_key,
}
use cirrus.Prelude.Result.{Result, ok}
use cirrus.Prelude.Table.{lookup}
use cirrus.Floats.{Floats}
use cirrus.Bytes.{store_u32}
use cirrus.Bytes.Laws.{load_u32-store_u32}
use cirrus.Operations.{Operation, code}
use cirrus.Server.{Conn, Server, Worker, read_all, receive, send_all}
use cirrus.Server.Dispatch.{serve, dispatch, run_operation, operation_to_f}

-- The connection after it has been read up to `rest`, and after `bytes` have been sent.
abbrev pub at_rest : Conn → List ℕ → Conn
at_rest c rest = record c { incoming = rest }

abbrev pub answered : Conn → List ℕ → Conn
answered c bytes = record c { outgoing = c.outgoing ++ bytes; room = c.room - length bytes }

pub answered-answered : (c : Conn) (a b : List ℕ) → answered (answered c a) b ≡ answered c (a ++ b)
answered-answered c a b =
    ap₂ (λ out room. record c { outgoing = out; room = room }) (append_assoc c.outgoing a b)
      (omega (arith, length-append a b))

pub read_all-append :
    (c : Conn) (bytes rest : List ℕ)
    → c.incoming ≡ bytes ++ rest
    → read_all c (length bytes) ≡ ok (length bytes, bytes, at_rest c rest)
unfolding read_all
read_all-append c bytes rest e =
    let all_there : leb (length bytes) (length (bytes ++ rest)) ≡ true =
      ground (arith, length-append bytes rest) in
    rw (e, all_there, take-append bytes rest, drop-append bytes rest) refl

pub receive-append :
    {A : Type 0} (c : Conn) (bytes rest : List ℕ) (at_end : Conn → Result A)
    (next : List ℕ → Conn → Result A)
    → c.incoming ≡ bytes ++ rest
    → 0 < length bytes
    → receive c (length bytes) at_end next ≡ next bytes (at_rest c rest)
unfolding receive
receive-append c bytes rest at_end next e some_bytes =
    let more : (length bytes == 0) ≡ false = ground arith in
    rw (read_all-append c bytes rest e, more) refl

pub receive-sized :
    {A : Type 0} (c : Conn) (bytes rest : List ℕ) (n : ℕ) (at_end : Conn → Result A)
    (next : List ℕ → Conn → Result A)
    → c.incoming ≡ bytes ++ rest
    → length bytes ≡ n
    → 0 < n
    → receive c n at_end next ≡ next bytes (at_rest c rest)
receive-sized c bytes rest n at_end next e size some_bytes =
    ap (λ k. receive c k at_end next) (sym size)
    ∙ receive-append c bytes rest at_end next e (omega arith)

pub receive-u32 :
    {A : Type 0} (c : Conn) (n : ℕ) (rest : List ℕ) (at_end : Conn → Result A)
    (next : List ℕ → Conn → Result A)
    → c.incoming ≡ store_u32 n rest
    → receive c 4 at_end next ≡ next (store_u32 n []) (at_rest c rest)
unfolding store_u32
receive-u32 c n rest at_end next e =
    receive-append c (store_u32 n []) rest at_end next e (omega arith)

pub receive-two :
    {A : Type 0} (c : Conn) (n m : ℕ) (rest : List ℕ) (at_end : Conn → Result A)
    (next : List ℕ → Conn → Result A)
    → c.incoming ≡ store_u32 n (store_u32 m rest)
    → receive c 8 at_end next ≡ next (store_u32 n (store_u32 m [])) (at_rest c rest)
unfolding store_u32
receive-two c n m rest at_end next e =
    receive-append c (store_u32 n (store_u32 m [])) rest at_end next e (omega arith)

pub send_all-fits :
    (c : Conn) (bytes : List ℕ)
    → length bytes ≤ c.room
    → send_all c bytes ≡ (true, answered c bytes)
unfolding send_all
send_all-fits c bytes h = let fits : leb (length bytes) c.room ≡ true = ground arith in rw fits refl

module _ {F D : Type 0} (fl : Floats F D) where
  -- A worker finds the handler of the operation that the request starts with.
  pub serve-run_operation :
      (now : ℕ) (s : Server F D) (c : Conn) (w : Worker) (op : Operation) (rest : List ℕ)
      → c.incoming ≡ store_u32 (code op) rest
      → lookup (code op) operation_to_f ≡ some op
      → code op < 2 ^ 32
      → serve fl now s c w ≡ run_operation fl op now s (at_rest c rest) w
  unfolding serve dispatch
  serve-run_operation now s c w op rest e known small =
      receive-u32 c (code op) rest _ _ e ∙ rw (load_u32-store_u32 (code op) [] small, known) refl
