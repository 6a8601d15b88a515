-- ===== src/Brackets/Grammar.antt =====
-- The counting loop against the grammar of balanced texts.
use interspec_typed_allocato.Prelude.{
  ℕ, zero, suc, ◌+◌, ◌≡◌, refl, ◌∙◌, sym, ap, true, false, some, [], ◌∷◌, ◌++◌, inl, inr, arith,
  Text, length, ◌==◌, Bool-cases, append_assoc, ==_refl, ==_iff, length-append, subst,
}
use interspec_typed_allocato.Brackets.{close_bracket}

-- Texts in which every opening bracket has its closing one.
pub data Balanced (opening closing : ℕ) : Text → Type 0 where
  nil : Balanced opening closing []
  other :
      (c : ℕ) {text : Text}
      → (c == opening) ≡ false
      → (c == closing) ≡ false
      → Balanced opening closing text
      → Balanced opening closing (c ∷ text)
  nest :
      (c : ℕ) {inner rest : Text}
      → (c == opening) ≡ true
      → Balanced opening closing inner
      → Balanced opening closing rest
      → Balanced opening closing (c ∷ (inner ++ (closing ∷ rest)))

module _ (opening closing : ℕ) (distinct : (closing == opening) ≡ false) where
  -- A balanced text leaves the depth as it is.
  pub close_bracket-Balanced :
      {text : Text} (depth position : ℕ) (rest : Text)
      → Balanced opening closing text
      → close_bracket opening closing (suc depth) position (text ++ rest)
        ≡ close_bracket opening closing (suc depth) (position + length text) rest
  unfolding close_bracket
  close_bracket-Balanced depth position rest nil =
      ap (λ p. close_bracket opening closing (suc depth) p rest) (omega arith)
  close_bracket-Balanced depth position rest (other c {text} o e b) =
      rw (o, e, close_bracket)
        (close_bracket-Balanced depth (suc position) rest b
          ∙ ap (λ p. close_bracket opening closing (suc depth) p rest) (omega arith))
  close_bracket-Balanced depth position rest (nest c {inner} {rest = more} o b b') =
      rw (append_assoc) (
        rw (o, close_bracket)
          (close_bracket-Balanced (suc depth) (suc position) (closing ∷ (more ++ rest)) b
            ∙ rw (distinct, ==_refl closing, close_bracket)
                (close_bracket-Balanced depth (suc (suc position + length inner)) rest b'
                  ∙ ap (λ p. close_bracket opening closing (suc depth) p rest)
                      (omega (arith, length-append inner (closing ∷ more))))))

  -- A text that closes so many brackets, the last one at its end.
  pub data Closes : ℕ → Text → Type 0 where
    done : Closes 0 []
    segment :
        {depth : ℕ} {text rest : Text}
        → Balanced opening closing text
        → Closes depth rest
        → Closes (suc depth) (text ++ (closing ∷ rest))

  Closes-other :
      (c : ℕ) {depth : ℕ} {text : Text}
      → (c == opening) ≡ false
      → (c == closing) ≡ false
      → Closes (suc depth) text
      → Closes (suc depth) (c ∷ text)
  Closes-other c o e (segment b s) = segment (other c o e b) s

  Closes-open :
      (c : ℕ) {depth : ℕ} {text : Text}
      → (c == opening) ≡ true
      → Closes (suc (suc depth)) text
      → Closes (suc depth) (c ∷ text)
  Closes-open c {depth} o (segment {text} b (segment {text = text'} {rest} b' s)) =
      subst (Closes (suc depth)) (ap (◌∷◌ c) (append_assoc text (closing ∷ text') (closing ∷ rest)))
        (segment (nest c o b b') s)

  Closes-close :
      (c : ℕ) {depth : ℕ} {text : Text}
      → (c == closing) ≡ true
      → Closes depth text
      → Closes (suc depth) (c ∷ text)
  Closes-close c {depth} {text} e s =
      subst (λ d. Closes (suc depth) (d ∷ text)) (sym ((==_iff c closing).0 e)) (segment nil s)

  -- Where the loop stops it has read a text that closes exactly the brackets that were open.
  pub record Stops (depth position : ℕ) (text : Text) (q : ℕ) : Type 0 where
    pub read : Text
    pub unread : Text
    pub splits : text ≡ read ++ unread
    pub moves : q ≡ position + length read
    pub closes : Closes depth read

  Stops-cons :
      (c depth depth' position q : ℕ) (text : Text)
      → ((read : Text) → Closes depth read → Closes depth' (c ∷ read))
      → Stops depth (suc position) text q
      → Stops depth' position (c ∷ text) q
  Stops-cons c depth depth' position q text f s = record {
    read = c ∷ s.read;
    unread = s.unread;
    splits = ap (◌∷◌ c) s.splits;
    moves = s.moves ∙ omega arith;
    closes = f s.read s.closes;
  }

  pub close_bracket-Stops :
      (depth position : ℕ) (text : Text) {q : ℕ}
      → close_bracket opening closing depth position text ≡ some q
      → Stops depth position text q
  unfolding close_bracket
  close_bracket-Stops zero position text h = record {
    read = [];
    unread = text;
    splits = refl;
    moves = ground arith;
    closes = done;
  }
  close_bracket-Stops (suc depth) position [] h = cc
  close_bracket-Stops (suc depth) position (c ∷ rest) {q} h = elim (Bool-cases (c == opening)) [
    | inl o ↦
        Stops-cons c _ _ _ _ rest (λ read. Closes-open c o)
          (close_bracket-Stops (suc (suc depth)) (suc position) rest (rw (o, close_bracket) at h))
    | inr o ↦ elim (Bool-cases (c == closing)) [
      | inl e ↦
          Stops-cons c _ _ _ _ rest (λ read. Closes-close c e)
            (close_bracket-Stops depth (suc position) rest (rw (o, e, close_bracket) at h))
      | inr e ↦
          Stops-cons c _ _ _ _ rest (λ read. Closes-other c o e)
            (close_bracket-Stops (suc depth) (suc position) rest (rw (o, e, close_bracket) at h))
    ]
  ]

  -- Conversely, it stops behind the first text that closes what is open.
  pub close_bracket-Closes :
      {depth : ℕ} {read : Text} (position : ℕ) (unread : Text)
      → Closes depth read
      → close_bracket opening closing depth position (read ++ unread)
        ≡ some (position + length read)
  unfolding close_bracket
  close_bracket-Closes position unread done = ap some (omega arith)
  close_bracket-Closes {depth = suc depth} position unread (segment {text} {rest} b s) =
      rw append_assoc (
        close_bracket-Balanced depth position (closing ∷ (rest ++ unread)) b
        ∙ rw (distinct, ==_refl closing, close_bracket)
            (close_bracket-Closes (suc (position + length text)) unread s
              ∙ ap some (omega (arith, length-append text (closing ∷ rest)))))
