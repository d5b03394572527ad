-- ===== src/HttpParser/Phases.antt =====
-- Runs of callbacks for the header lines and the body of a message, and its end.
use c_http.Prelude.{
  ℕ, ◌≡◌, ◌<◌, refl, List, [], ◌∷◌, Bool, true, Run, ok, arith, length, inl, inr, ap, sym, ◌∙◌, map,
  concat, append_assoc, append-nil, ◌==◌, Bool-cases, if◌then◌else◌,
}
use c_http.Cbuffer.Laws.{Gives}
use c_http.Message.{Malloc, Message}
use c_http.Message.Serialize.{BodyIsValid, body_text}
use c_http.HttpParser.{HttpParser}
use c_http.HttpParser.Feed.{Callback, on_body, on_message_complete, Handler, call, feed}
use c_http.HttpParser.Step.{Texts, Reads, Opens, settled}
use c_http.HttpParser.Pieces.{
  Line, lines_callbacks, AllFit, with_lines, Passes, Passes-nil, Passes-cons, Passes-append,
  line-Passes,
}
use c_http.HttpParser.Sections.{
  settled-line, with_lines-cons, with_lines-nil, Extends, body_data_cb-Reads,
}

-- No piece is empty.
abbrev pub AllSome : List (List ℕ) → Type 0
AllSome [] = Unit
AllSome (at ∷ pieces) = (0 < length at) × AllSome pieces

eq_zero : (n : ℕ) → (n == 0) ≡ true → n ≡ 0
eq_zero n h = ground arith

module _ {ℓ} {S : Type ℓ} (malloc : Malloc) (garbage : ℕ × ℕ) (stale : Bool) (handler : Handler S)
    (gives : Gives malloc) where
  -- The lines one after the other: the last of them is still in the buffers.
  pub lines-Passes :
      (p : HttpParser) {st : ℕ} {m : Message} {t : Texts} (ls : List Line)
      → Opens st
      → Reads p st m t
      → AllFit ls
      → (p' : HttpParser) × (st' : ℕ) × (m' : Message) × (t' : Texts) × Passes malloc garbage stale
          handler
          (lines_callbacks ls)
          p
          p'
        × Reads p' st' m' t'
        × Opens st'
        × (t'.url ≡ t.url)
        × (settled m' t'.name t'.value ≡ with_lines (settled m t.name t.value) ls)
  lines-Passes p {st} {m} {t} [] opens r fits = (
    p,
    st,
    m,
    t,
    Passes-nil malloc garbage stale handler p,
    r,
    opens,
    refl,
    sym (with_lines-nil (settled m t.name t.value)),
  )
  lines-Passes p {st} {m} {t} (l ∷ ls) opens r fits =
      let (q, one, rq) = line-Passes malloc garbage stale handler gives p l opens r (fits.0) in
      let (p', st', m', t', others, r', opens', url, all) =
        lines-Passes q ls (inr refl) rq (fits.1) in
      (
        p',
        st',
        m',
        t',
        Passes-append malloc garbage stale handler one others,
        r',
        opens',
        url,
        all
            ∙ ap (λ n. with_lines n ls)
                (settled-line (settled m t.name t.value) l (fits.0).some_name)
            ∙ with_lines-cons (settled m t.name t.value) l ls,
      )

  pub body-Passes :
      (p : HttpParser) {st : ℕ} {m : Message} {t : Texts} (pieces : List (List ℕ))
      → Reads p st m t
      → BodyIsValid m.body
      → AllSome pieces
      → (p' : HttpParser) × (m' : Message) × Passes malloc garbage stale handler
          (map on_body pieces)
          p
          p'
        × Reads p' st m' t
        × Extends m m' (concat pieces)
  unfolding call
  body-Passes p {m} [] r v some_bytes = (
    p,
    m,
    Passes-nil malloc garbage stale handler p,
    r,
    (refl, v, sym (append-nil (body_text m.body))),
  )
  body-Passes p {m} (at ∷ pieces) r v some_bytes =
      let (q, n, done, rq, (same, vn, first)) =
        body_data_cb-Reads malloc p at gives r v (some_bytes.0) in
      let (p', m', others, r', (same', v', all)) = body-Passes q pieces rq vn (some_bytes.1) in
      (
        p',
        m',
        Passes-cons malloc garbage stale handler (on_body at) p q (λ s. rw done refl) others,
        r',
        (
          same' ∙ ap (λ (o : Message). record o { body = m'.body }) same,
          v',
          all ∙ rw first (append_assoc (body_text m.body) at (concat pieces)),
        ),
      )

  pub one :
      (c : Callback) (p q : HttpParser)
      → ((s : S) → call malloc garbage stale handler c p s ≡ ok (q, s, 0))
      → Passes malloc garbage stale handler (c ∷ []) p q
  one c p q h =
      Passes-cons malloc garbage stale handler c p q h (Passes-nil malloc garbage stale handler q)

  -- The last callback: nothing comes after it.
  pub complete-feed :
      (p p' : HttpParser) (m : Message) (s : S)
      → call malloc garbage stale handler on_message_complete p s
        ≡ ok (p', (handler s m).0, (handler s m).1)
      → feed malloc garbage stale handler (on_message_complete ∷ []) p s
        ≡ ok (p', (handler s m).0, (handler s m).1)
  unfolding feed
  complete-feed p p' m s e = rw e (split (handler s m).0 (handler s m).1)
    where
      split :
          (context : S) (answer : ℕ)
          → (if◌then◌else◌ {A = Run (HttpParser × S × ℕ)}
              (answer == 0)
              (ok (p', context, 0))
              (ok (p', context, answer)))
            ≡ ok (p', context, answer)
      split context answer = elim (Bool-cases (answer == 0)) [
        | inl z ↦ rw (z, eq_zero answer z) refl
        | inr nz ↦ rw nz refl
      ]
