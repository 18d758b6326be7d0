-- ===== src/Ai/Answers/Fenced.antt =====
-- An answer that is one fenced block of JSON.
use revix.Prelude.{
  ℕ, Text, codes, starts_with, contains, is_space, strip, strip_left, strip_right, Json, ◌≡◌, refl,
  sym, ◌∙◌, ap, subst, false, some, [], ◌∷◌, ◌++◌, reverse, arith,
}
use mathlib.Core.List.{append_assoc, reverse-append, reverse-reverse}
use revix.Effects.{Result}
use revix.Ai.Answers.{
  find_after, find_before, backticks, json_fence, group_of, fenced_rest, fenced, payload_text,
  extract_json_payload,
}

strip_left-fixed : (c : ℕ) (s : Text) → is_space c ≡ false → strip_left (c ∷ s) ≡ c ∷ s
unfolding strip_left
strip_left-fixed c s n = rw n refl

-- `w` with a last character that is no space
reverse-snoc : (w : Text) (d : ℕ) → reverse (w ++ (d ∷ [])) ≡ d ∷ reverse w
reverse-snoc w d = reverse-append w (d ∷ [])

strip_right-fixed :
    (w : Text) (d : ℕ) → is_space d ≡ false → strip_right (w ++ (d ∷ [])) ≡ w ++ (d ∷ [])
unfolding strip_right
strip_right-fixed w d n =
    ap (λ r. reverse (strip_left r)) (reverse-snoc w d)
    ∙ ap reverse (strip_left-fixed d (reverse w) n)
    ∙ ap reverse (sym (reverse-snoc w d))
    ∙ reverse-reverse (w ++ (d ∷ []))

strip_right-newline :
    (w : Text) (d : ℕ)
    → is_space d ≡ false
    → strip_right (w ++ (d ∷ []) ++ codes "\n") ≡ w ++ (d ∷ [])
unfolding strip_right strip_left
strip_right-newline w d n =
    ap (λ r. reverse (strip_left r)) (reverse-snoc (w ++ (d ∷ [])) b'\n') ∙ strip_right-fixed w d n

strip-fixed :
    (c : ℕ) (w : Text) (d : ℕ)
    → is_space c ≡ false
    → is_space d ≡ false
    → strip (c ∷ w ++ (d ∷ [])) ≡ c ∷ w ++ (d ∷ [])
unfolding strip strip_right
strip-fixed c w d m n =
    ap strip_right (strip_left-fixed c (w ++ (d ∷ [])) m) ∙ strip_right-fixed (c ∷ w) d n

-- No backticks come together at the end of `s`.
starts_with-before :
    (s : Text)
    → starts_with s backticks ≡ false
    → starts_with (s ++ codes "\n```") backticks ≡ false
unfolding starts_with
starts_with-before [] h = refl
starts_with-before (a ∷ []) h = ground arith
starts_with-before (a ∷ b ∷ []) h = ground arith
starts_with-before (a ∷ b ∷ c ∷ s) h = ground (arith, h)

find_before-fence :
    (s : Text)
    → contains s backticks ≡ false
    → find_before backticks (s ++ codes "\n```") ≡ some (s ++ codes "\n")
unfolding find_before contains starts_with
find_before-fence [] h = refl
find_before-fence (c ∷ s) h =
    let here : starts_with (c ∷ s) backticks ≡ false = ground (arith, h) in
    let later : contains s backticks ≡ false = ground (arith, h) in
    rw (starts_with-before (c ∷ s) here, find_before-fence s later) refl

-- the parts of a match
find_after-fence :
    (s : Text) → find_after json_fence (codes "```json\n" ++ s) ≡ some (codes "\n" ++ s)
unfolding find_after starts_with
find_after-fence s = refl

module _ (c d : ℕ) (opens : is_space c ≡ false) (closes : is_space d ≡ false) where
  -- the value, and the answer that holds it
  abbrev pub value : Text → Text
  value w = c ∷ w ++ (d ∷ [])

  abbrev pub fenced_text : Text → Text
  fenced_text w = codes "```json\n" ++ (value w ++ codes "\n```")

  newline-value :
      (w : Text) → strip_left (codes "\n" ++ (value w ++ codes "\n```")) ≡ value w ++ codes "\n```"
  unfolding strip_left
  newline-value w = strip_left-fixed c (w ++ (d ∷ []) ++ codes "\n```") opens

  fenced-fenced_text :
      (w : Text) → contains (value w) backticks ≡ false → fenced (fenced_text w) ≡ some (value w)
  unfolding fenced
  fenced-fenced_text w h =
      ap fenced_rest (find_after-fence (value w ++ codes "\n```"))
      ∙ ap (λ r. group_of (find_before backticks r)) (newline-value w)
      ∙ ap group_of (find_before-fence (value w) h)
      ∙ ap some (strip_right-newline (c ∷ w) d closes)

  strip-fenced_text : (w : Text) → strip (fenced_text w) ≡ fenced_text w
  strip-fenced_text w =
      let same = append_assoc (w ++ (d ∷ [])) (codes "\n``") (codes "`") in
      subst (λ r. let t = codes "```json\n" ++ (c ∷ r) in strip t ≡ t) same
        (strip-fixed b'`' (codes "``json\n" ++ (c ∷ (w ++ (d ∷ []) ++ codes "\n``"))) b'`' refl
          refl)

  -- Let a text begin and end with characters that are no spaces, at two different positions, and
  -- contain no three backticks in a row. From the answer that is exactly one fenced block tagged
  -- json with this text on lines of its own, `extract_json_payload` gives exactly this text to
  -- `json.loads`.
  pub extract_json_payload-fenced_text :
      (loads : Text → Result Json) (w : Text)
      → contains (value w) backticks ≡ false
      → extract_json_payload loads (fenced_text w) ≡ loads (value w)
  unfolding extract_json_payload
  extract_json_payload-fenced_text loads w h =
      ap (λ s. loads (payload_text (fenced s) s)) (strip-fenced_text w)
      ∙ ap (λ g. loads (payload_text g (fenced_text w))) (fenced-fenced_text w h)
