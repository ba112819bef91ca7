-- ===== src/TextScan/Lines.antt =====
-- The walk over a buffer, line by line, that both parsers spell out, against the list of its lines.
use mathlib.Core.List.{append-nil, append_assoc}
use rapi_bootloader.Base.{
  ℕ, ◌≡◌, refl, ap, ◌∙◌, inl, inr, false, List, [], ◌∷◌, ◌++◌, arith, ◌==◌, if◌then◌else◌,
  Bool-cases, Bytes,
}
use rapi_bootloader.TextScan.Laws.{Lacks}

-- Put `line` in front of the first of some lines.
abbrev pub join_first : Bytes → List Bytes → List Bytes
join_first line [] = []
join_first line (l ∷ ls) = (line ++ l) ∷ ls

-- A text cut at its newlines.
unfoldable pub split_lines : Bytes → List Bytes
split_lines [] = [] ∷ []
split_lines (c ∷ rest) =
    let later = split_lines rest in if c == b'\n' then [] ∷ later else join_first (c ∷ []) later

pub split_lines-append :
    (line rest : Bytes)
    → Lacks b'\n' line
    → split_lines (line ++ b'\n' ∷ rest) ≡ line ∷ split_lines rest
unfolding split_lines
split_lines-append [] rest h = refl
split_lines-append (c ∷ line) rest h =
    let e : (c == b'\n') ≡ false = ground arith in rw (e, split_lines-append line rest h.1)

join_first_nil : (ls : List Bytes) → join_first [] ls ≡ ls
join_first_nil [] = refl
join_first_nil (l ∷ ls) = refl

join_first-append :
    (a b : Bytes) (ls : List Bytes) → join_first (a ++ b) ls ≡ join_first a (join_first b ls)
join_first-append a b [] = refl
join_first-append a b (l ∷ ls) = ap (λ x. x ∷ ls) (append_assoc a b l)

module _ {S : Type 0} (step : S → Bytes → S) where
  abbrev pub fold_lines : S → List Bytes → S
  fold_lines s [] = s
  fold_lines s (l ∷ ls) = fold_lines (step s l) ls

  -- The walk; `line` is what stands since the last newline.
  pub walk : S → Bytes → Bytes → S
  walk s line [] = step s line
  walk s line (c ∷ rest) =
      walk (if c == b'\n' then step s line else s) (if c == b'\n' then [] else line ++ c ∷ []) rest

  walk-join_first :
      (s : S) (line rest : Bytes)
      → walk s line rest ≡ fold_lines s (join_first line (split_lines rest))
  unfolding walk split_lines
  walk-join_first s line [] = rw (append-nil line)
  walk-join_first s line (c ∷ rest) = elim (Bool-cases (c == b'\n')) [
    | inl new ↦
        rw (new, append-nil line)
          (walk-join_first (step s line) [] rest
            ∙ ap (fold_lines (step s line)) (join_first_nil (split_lines rest)))
    | inr same ↦ rw same (
        walk-join_first s (line ++ c ∷ []) rest
        ∙ ap (fold_lines s) (join_first-append line (c ∷ []) (split_lines rest)))
  ]

  pub walk-split_lines : (s : S) (text : Bytes) → walk s [] text ≡ fold_lines s (split_lines text)
  walk-split_lines s text =
      walk-join_first s [] text ∙ ap (fold_lines s) (join_first_nil (split_lines text))

  -- A walk that skips the empty rest behind the last newline is the same, where the step does.
  pub eq-walk :
      (other : S → Bytes → Bytes → S)
      → ((s : S) (line : Bytes) → other s line [] ≡ step s line)
      → ((s : S) (line rest : Bytes) (c : ℕ)
          → other s line (c ∷ rest)
            ≡ other
                (if c == b'\n' then step s line else s)
                (if c == b'\n' then [] else line ++ c ∷ [])
                rest)
      → (s : S) (line text : Bytes) → other s line text ≡ walk s line text
  unfolding walk
  eq-walk other done next s line [] = done s line
  eq-walk other done next s line (c ∷ rest) =
      next s line rest c
      ∙ eq-walk other done next (if c == b'\n' then step s line else s)
          (if c == b'\n' then [] else line ++ c ∷ []) rest
