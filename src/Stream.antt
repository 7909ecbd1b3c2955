-- ===== src/Stream.antt =====
-- The framing helpers that every process repeats over its Unix sockets: `readExact` and `writeExact`
-- of yolov8n_cap_multithread/src/ipc/unix_control_server.cc, unix_data_publisher.cc,
-- tracker/src/bytetrack_service.cc, temporal/src/temporal_service.cc and the tools.
-- What the kernel does enters as data: the pieces in which it hands over the input, and how many
-- bytes each `send` accepts. When these are used up, `read` and `send` fail.
pub mod Read
pub mod Write
use khadas_yolov8n_multithre.Prelude.{
  ℕ, zero, suc, ◌+◌, ◌-◌, Bool, true, false, Option, none, some, List, [], ◌∷◌, ◌++◌, min, ◌==◌,
  leb, if◌then◌else◌, length, take, drop,
}

-- The input of a socket: each piece is what one `read` can give at most.
abbrev pub Input : Type 0
Input = List (List ℕ)

-- `read(fd, p, n)`: no bytes is its result 0 or -1.
unfoldable pub read : ℕ → Input → List ℕ × Input
read n [] = ([], [])
read n (p ∷ ps) = (take n p, if leb (length p) n then ps else drop n p ∷ ps)

-- What was read before, in front of what the rest of a loop reads.
unfoldable pub prepend : List ℕ → Option (List ℕ × Input) → Option (List ℕ × Input)
prepend got none = none
prepend got (some (more, left)) = some (got ++ more, left)

-- `while (n > 0)`, on fuel: each round reads at least one byte or fails.
unfoldable pub read_loop : ℕ → ℕ → Input → Option (List ℕ × Input)
unfolding prepend
read_loop zero n ps = none
read_loop (suc f) n ps =
    let (got, rest) = read n ps in
    let later = read_loop f (n - length got) rest in
    if n == 0 then some ([], ps) else if length got == 0 then none else prepend got later

unfoldable pub read_exact : ℕ → Input → Option (List ℕ × Input)
unfolding read_loop read
read_exact n ps = read_loop (n + 1) n ps

-- What a writer has put on the wire, whether all of it went out, and the sends that are left.
pub record Sent : Type 0 where
  pub ok : Bool
  pub bytes : List ℕ
  pub sends : List ℕ

-- `writeExact`: `sends` are the counts that the next calls of `send` return, 0 for a failure.
unfoldable pub write_exact : List ℕ → List ℕ → Sent
write_exact [] sends = record { ok = true; bytes = []; sends = sends }
write_exact (b ∷ bs) [] = record { ok = false; bytes = []; sends = [] }
write_exact (b ∷ bs) (w ∷ sends) =
    let rest = write_exact (drop w (b ∷ bs)) sends in
    if w == 0
    then record { ok = false; bytes = []; sends = sends }
    else record rest { bytes = take w (b ∷ bs) ++ rest.bytes }

-- `if (!writeExact(…)) return false;` and what follows it
unfoldable pub and_then : Sent → (List ℕ → Sent) → Sent
and_then s next =
    let t = next s.sends in if s.ok then record t { bytes = s.bytes ++ t.bytes } else s
