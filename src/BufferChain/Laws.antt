-- ===== src/BufferChain/Laws.antt =====
-- What a chain holds.
use c_http.Prelude.{
  ℕ, ◌<◌, ◌≡◌, refl, List, [], ◌∷◌, ◌++◌, Option, none, some, arith, length, append-nil,
  append_assoc, ap, sym, ◌∙◌,
}
use c_http.Prelude.Int.{pos}
use c_http.IoBuffer.{IoBuffer}
use c_http.IoBuffer.Laws
use c_http.IoBuffer.Laws.{bytes, length-bytes, new_lem, new-IsValid, data_add-refused}
use c_http.BufferChain.{BufferChain, Malloc, empty_chain, last, set_last}

-- `malloc` returns a block of the size that it is asked for.
abbrev pub Gives : Malloc → Type 0
Gives malloc = (n : ℕ) → length (malloc n) ≡ n

abbrev pub contents : List IoBuffer → List ℕ
contents [] = []
contents (b ∷ rest) = bytes b ++ contents rest

-- Every buffer of a chain is valid and has data.
abbrev pub AllFilled : List IoBuffer → Type 0
AllFilled [] = Unit
AllFilled (b ∷ rest) = Laws.IsValid b × (0 < b.buffer_remaining) × AllFilled rest

-- The data of the last buffer, which `append` extends, start at the start of its block.
abbrev pub Starts : Option IoBuffer → Type 0
Starts none = Unit
Starts (some b) = b.buffer_ptr ≡ 0

pub record IsValid (c : BufferChain) : Type 0 where
  pub filled : AllFilled c.chain
  pub counted : c.size ≡ pos (length (contents c.chain))
  pub starts : Starts (last c.chain)

pub contents_snoc :
    (l : List IoBuffer) (b : IoBuffer) → contents (l ++ b ∷ []) ≡ contents l ++ bytes b
contents_snoc [] b = append-nil (bytes b)
contents_snoc (c ∷ l) b =
    ap (λ (t : List ℕ). bytes c ++ t) (contents_snoc l b)
    ∙ sym (append_assoc (bytes c) (contents l) (bytes b))

pub AllFilled_snoc :
    (l : List IoBuffer) (b : IoBuffer)
    → AllFilled l
    → Laws.IsValid b
    → 0 < b.buffer_remaining
    → AllFilled (l ++ b ∷ [])
AllFilled_snoc [] b f v h = (v, h, tt)
AllFilled_snoc (c ∷ l) b f v h = (f.0, f.1, AllFilled_snoc l b f.2 v h)

pub last_snoc : (l : List IoBuffer) (b : IoBuffer) → last (l ++ b ∷ []) ≡ some b
last_snoc [] b = refl
last_snoc (c ∷ []) b = refl
last_snoc (c ∷ d ∷ l) b = last_snoc (d ∷ l) b

-- A chain with a last buffer is a shorter one and that buffer.
pub last-split :
    (l : List IoBuffer) (b : IoBuffer)
    → last l ≡ some b
    → (front : List IoBuffer) × (l ≡ front ++ b ∷ [])
      × ((x : IoBuffer) → set_last l x ≡ front ++ x ∷ [])
last-split [] b e = cc
last-split (c ∷ []) b e = ([], cc, λ x. refl)
last-split (c ∷ d ∷ l) b e =
    let (front, split, sets) = last-split (d ∷ l) b e in
    (
      c ∷ front,
      ap (λ (t : List IoBuffer). c ∷ t) split,
      λ x. ap (λ (t : List IoBuffer). c ∷ t) (sets x),
    )

pub AllFilled-split :
    (l : List IoBuffer) (b : IoBuffer)
    → AllFilled (l ++ b ∷ [])
    → AllFilled l × Laws.IsValid b × (0 < b.buffer_remaining)
AllFilled-split [] b f = (tt, f.0, f.1)
AllFilled-split (c ∷ l) b f = let (fl, v, h) = AllFilled-split l b f.2 in ((f.0, f.1, fl), v, h)

-- A chain that counts some bytes has a last buffer.
pub last-some : (l : List IoBuffer) → 0 < length (contents l) → (b : IoBuffer) × (last l ≡ some b)
last-some [] h = absurd (omega arith)
last-some (b ∷ []) h = (b, refl)
last-some (b ∷ c ∷ l) h = last-some-cons c l
  where
    last-some-cons : (c : IoBuffer) (l : List IoBuffer) → (b : IoBuffer) × (last (c ∷ l) ≡ some b)
    last-some-cons c [] = (c, refl)
    last-some-cons c (d ∷ l) = last-some-cons d l

pub empty_chain-IsValid : IsValid empty_chain
unfolding empty_chain
empty_chain-IsValid = record { filled = tt; counted = refl; starts = tt }

pub empty_chain-contents : contents empty_chain.chain ≡ []
unfolding empty_chain
empty_chain-contents = refl
