-- ===== src/Control/Parse.antt =====
-- Requests between tools/control_client.cc and src/ipc/unix_control_server.cc of yolov8n_cap_multithread.
use khadas_yolov8n_multithre.Prelude.{
  ℕ, ◌%◌, ◌^◌, ◌≤◌, ◌<◌, ◌≡◌, ◌≢◌, refl, sym, ap, ◌∙◌, Bool, true, false, none, some, List, [], ◌∷◌,
  ◌++◌, arith, ltb, ◌==◌, ◌||◌, if◌then◌else◌, inl, inr, Bool-cases, some-injective, length,
  append_assoc,
}
use khadas_yolov8n_multithre.Stream.{Input, read_exact}
use khadas_yolov8n_multithre.Stream.Read.{flat, Lively, read_exact-front}
use khadas_yolov8n_multithre.Stream.Write.{Writes, Writes-ok, write_exact-Writes, and_then-Writes}
use khadas_yolov8n_multithre.Wire.{le, word, word-prefix, length-le}
use khadas_yolov8n_multithre.Control.{
  starts_with, find, up_to_quote, extract_string, enabled_middle, close_params, same_text,
  build_command, recv_msg, send_msg, cmd_key, open_request, close_request, set_dump_enabled_text,
  true_text, false_text,
}

-- No `"` in a text.
abbrev pub Unquoted : List ℕ → Type 0
Unquoted [] = Unit {0}
Unquoted (c ∷ s) = (c ≢ 34) × Unquoted s

up_to_quote-append : (s rest : List ℕ) → Unquoted s → up_to_quote (s ++ (34 ∷ rest)) ≡ some s
unfolding up_to_quote
up_to_quote-append [] rest u = refl
up_to_quote-append (c ∷ s) rest u = ground (arith, up_to_quote-append s rest u.1)

extract_string-request :
    (cmd : List ℕ)
    → Unquoted cmd
    → extract_string (open_request ++ (cmd ++ close_request)) cmd_key ≡ cmd
unfolding extract_string find starts_with
extract_string-request cmd u = rw (up_to_quote-append cmd (125 ∷ []) u, extract_string)

same_text→≡ : (a b : List ℕ) → same_text a b ≡ true → a ≡ b
unfolding same_text
same_text→≡ [] [] e = refl
same_text→≡ [] (y ∷ b) e = absurd (cc e)
same_text→≡ (x ∷ a) [] e = absurd (cc e)
same_text→≡ (x ∷ a) (y ∷ b) e = ground (arith, same_text→≡ a b)

extract_string-dump :
    (value : Bool)
    → extract_string
        (enabled_middle ++ ((if value then true_text else false_text) ++ close_params))
        cmd_key
      ≡ set_dump_enabled_text
unfolding extract_string find starts_with up_to_quote
extract_string-dump true = refl
extract_string-dump false = refl

build-plain :
    (cmd : List ℕ) (args : List (List ℕ))
    → same_text cmd set_dump_enabled_text ≡ false
    → build_command cmd args ≡ some (open_request ++ (cmd ++ close_request))
unfolding build_command
build-plain cmd [] h = rw h
build-plain cmd (arg ∷ args) h = rw h

abbrev dump_request : Bool → List ℕ
dump_request value = enabled_middle ++ ((if value then true_text else false_text) ++ close_params)

build-dump :
    (cmd json : List ℕ) (args : List (List ℕ))
    → same_text cmd set_dump_enabled_text ≡ true
    → build_command cmd args ≡ some json
    → (value : Bool) × (dump_request value ≡ json)
unfolding build_command
build-dump cmd json [] h e = absurd (let f : none ≡ some json = sym (rw h refl) ∙ e in cc f)
build-dump cmd json (arg ∷ args) h e =
    let value : Bool = same_text arg true_text || same_text arg (49 ∷ []) in
    (
      value,
      some-injective _ _ (
          let f : build_command cmd (arg ∷ args) ≡ some (dump_request value) = rw h refl in
          sym f ∙ e),
    )

-- Whatever request the client builds, with a command name that holds no quote, the server reads
-- that command name from it.
pub extract_string-build_command :
    (cmd json : List ℕ) (args : List (List ℕ))
    → Unquoted cmd
    → build_command cmd args ≡ some json
    → extract_string json cmd_key ≡ cmd
extract_string-build_command cmd json args u e =
    elim (Bool-cases (same_text cmd set_dump_enabled_text)) [
      | inl dump ↦
          let (value, built) = build-dump cmd json args dump e in
          ap (λ j. extract_string j cmd_key) (sym built)
          ∙ extract_string-dump value
          ∙ sym (same_text→≡ cmd set_dump_enabled_text dump)
      | inr plain ↦
          ap (λ j. extract_string j cmd_key)
            (some-injective _ _ (sym e ∙ build-plain cmd args plain))
          ∙ extract_string-request cmd u
    ]

send_msg-Writes :
    (msg sends : List ℕ) → Writes (le 4 (length msg % 2 ^ 32) ++ msg) (send_msg msg sends)
unfolding send_msg
send_msg-Writes msg sends =
    and_then-Writes _ _ _ _ (write_exact-Writes _ sends) (λ later. write_exact-Writes msg later)

recv_msg-steps :
    (n : ℕ) (prefix msg : List ℕ) (input input1 left : Input)
    → read_exact 4 input ≡ some (prefix, input1)
    → (word 4 prefix).0 ≡ n
    → (n == 0 || ltb (2 ^ 20) n) ≡ false
    → read_exact n input1 ≡ some (msg, left)
    → recv_msg input ≡ some (msg, left)
unfolding recv_msg
recv_msg-steps n prefix msg input input1 left got1 size_read fits got2 =
    rw (got1, recv_msg, size_read, fits) got2

size_fits : (n : ℕ) → 0 < n → n ≤ 2 ^ 20 → (n == 0 || ltb (2 ^ 20) n) ≡ false
size_fits n h k = ground arith

-- A message of 1 byte to 1 MB that `sendMsg` sent whole is what `recvMsg` returns, whatever pieces it comes in.
pub recv-send_msg :
    (msg sends rest : List ℕ) (input : Input)
    → 0 < length msg
    → length msg ≤ 2 ^ 20
    → (send_msg msg sends).ok ≡ true
    → Lively input
    → flat input ≡ (send_msg msg sends).bytes ++ rest
    → (left : Input) × (recv_msg input ≡ some (msg, left)) × (flat left ≡ rest)
recv-send_msg msg sends rest input some_bytes few done lively e =
    let n : ℕ = length msg % 2 ^ 32 in
    let same : n ≡ length msg = omega arith in
    let sent = Writes-ok (send_msg-Writes msg sends) done in
    let (input1, got1, e1, v1) =
      read_exact-front 4 input (le 4 n) (msg ++ rest) lively
        (e ∙ ap (λ bs. bs ++ rest) sent ∙ append_assoc (le 4 n) msg rest) (length-le 4 n) in
    let (left, got2, e2, v2) = read_exact-front (length msg) input1 msg rest v1 e1 refl in
    (
      left,
      recv_msg-steps (length msg) (le 4 n) msg input input1 left got1
          (word-prefix n (omega arith) ∙ same) (size_fits (length msg) some_bytes few) got2,
      e2,
    )
