-- ===== src/Postprocess/Labels.antt =====
-- The label file of yolov8n_cap_multithread/src/postprocess.cc: readLine, readLines and loadLabelName, on the bytes of
-- the file, `none` where it does not open. `malloc` and `realloc` succeed.
use khadas_yolov8n_multithre.Prelude.{
  ℕ, zero, suc, ◌<◌, ◌≡◌, ◌≢◌, refl, ap, false, Option, none, some, List, [], ◌∷◌, ◌++◌, arith,
  ◌==◌, if◌then◌else◌, take,
}
use khadas_yolov8n_multithre.Postprocess.{obj_class_num}

-- What stands before the next newline, and what behind it, if there is one.
unfoldable pub take_line : List ℕ → List ℕ × Option (List ℕ)
take_line [] = ([], none)
take_line (c ∷ s) =
    let (line, rest) = take_line s in if c == 10 then ([], some s) else (c ∷ line, rest)

-- `Detect end`: an empty line at the end of the file is none.
unfoldable pub detect_end : List ℕ → Option (List ℕ) → Option (List ℕ × List ℕ)
detect_end [] none = none
detect_end (c ∷ line) none = some (c ∷ line, [])
detect_end line (some rest) = some (line, rest)

unfoldable pub read_line : List ℕ → Option (List ℕ × List ℕ)
unfolding take_line detect_end
read_line s = let (line, rest) = take_line s in detect_end line rest

-- At most `n` lines.
unfoldable pub more_lines : ℕ → List ℕ → List (List ℕ)
more_lines zero s = []
more_lines (suc n) s = elim (read_line s) [
  | none ↦ []
  | some (line, rest) ↦ line ∷ more_lines n rest
]

-- The test stands behind the store, so one line is read also where `max_line` is 0.
unfoldable pub read_lines : ℕ → List ℕ → List (List ℕ)
unfolding more_lines
read_lines max_line s = more_lines (if max_line == 0 then 1 else max_line) s

-- `labels`: a null pointer is left out.
unfoldable pub load_label_name : Option (List ℕ) → List (List ℕ)
unfolding read_lines
load_label_name none = []
load_label_name (some s) = read_lines obj_class_num s

-- A file of these lines, each with its newline.
abbrev pub written : List (List ℕ) → List ℕ
written [] = []
written (l ∷ ls) = l ++ (10 ∷ written ls)

-- No line holds a newline.
abbrev pub NoNewline : List ℕ → Type 0
NoNewline [] = Unit {0}
NoNewline (c ∷ s) = (c ≢ 10) × NoNewline s

abbrev pub AllLines : List (List ℕ) → Type 0
AllLines [] = Unit {0}
AllLines (l ∷ ls) = NoNewline l × AllLines ls

take_line-written : (l s : List ℕ) → NoNewline l → take_line (l ++ (10 ∷ s)) ≡ (l, some s)
unfolding take_line
take_line-written [] s h = refl
take_line-written (c ∷ l) s h = ground (arith, take_line-written l s h.1, h.0)

read_line-written : (l s : List ℕ) → NoNewline l → read_line (l ++ (10 ∷ s)) ≡ some (l, s)
unfolding read_line
read_line-written [] s h = refl
read_line-written (c ∷ l) s h = rw (take_line-written (c ∷ l) s h) refl

more_lines-written :
    (n : ℕ) (ls : List (List ℕ)) → AllLines ls → more_lines n (written ls) ≡ take n ls
unfolding more_lines read_line take_line
more_lines-written zero ls h = refl
more_lines-written (suc n) [] h = refl
more_lines-written (suc n) (l ∷ ls) h =
    rw (read_line-written l (written ls) h.0, more_lines) (ap (◌∷◌ l) (more_lines-written n ls h.1))

-- From a file of lines that hold no newline, each with its own at the end, the first `max_line`
-- lines are read, empty ones too.
pub read_lines-written :
    (max_line : ℕ) (ls : List (List ℕ))
    → 0 < max_line
    → AllLines ls
    → read_lines max_line (written ls) ≡ take max_line ls
unfolding read_lines
read_lines-written (suc n) ls some_room h =
    let asked : (suc n == 0) ≡ false = ground arith in rw asked (more_lines-written (suc n) ls h)
read_lines-written zero ls none_left h = absurd (omega arith)
