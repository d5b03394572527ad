-- ===== src/HttpParser/Pieces.antt =====
-- Runs of callbacks for the pieces of a target and of the header lines.
use c_http.Prelude.{
  ℕ, ◌+◌, ◌≡◌, ◌≤◌, ◌<◌, refl, List, [], ◌∷◌, ◌++◌, true, ok, arith, length, ap, sym, ◌∙◌, map,
  concat, Bool, append_assoc, append-nil, length-append,
}
use c_http.Cbuffer.{common_strategy}
use c_http.Cbuffer.Laws.{Gives}
use c_http.KvPair.{KvPair, kv_pair_new}
use c_http.Message.{Malloc, Message, message_set_is_request}
use c_http.HttpParser.{HttpParser, field_state, value_state}
use c_http.HttpParser.Feed.{Callback, on_url, on_header_field, on_header_value, Handler, call, feed}
use c_http.HttpParser.Step.{Texts, Reads, Opens, settled, url_data_cb-Reads}
use c_http.HttpParser.Lines.{
  header_field_data_cb-Opens, header_field_data_cb-Reads, header_value_data_cb-first,
  header_value_data_cb-Reads,
}

-- No piece is longer than the smallest slab.
abbrev pub AllShort : List (List ℕ) → Type 0
AllShort [] = Unit
AllShort (at ∷ pieces) = (length at ≤ common_strategy.min_size) × AllShort pieces

-- A header line in the pieces in which llhttp reports its label and its value.
pub record Line : Type 0 where
  pub field : List ℕ
  pub fields : List (List ℕ)
  pub value : List ℕ
  pub values : List (List ℕ)

abbrev pub line_name : Line → List ℕ
line_name l = l.field ++ concat l.fields

abbrev pub line_value : Line → List ℕ
line_value l = l.value ++ concat l.values

abbrev pub line_callbacks : Line → List Callback
line_callbacks l =
    on_header_field l.field
    ∷ (map on_header_field l.fields ++ (on_header_value l.value ∷ map on_header_value l.values))

abbrev pub lines_callbacks : List Line → List Callback
lines_callbacks [] = []
lines_callbacks (l ∷ ls) = line_callbacks l ++ lines_callbacks ls

abbrev pub line_pair : Line → KvPair
line_pair l = kv_pair_new (line_name l) (line_value l)

-- Short pieces, a label that is not empty, and neither text as long as the largest slab.
pub record Fits (l : Line) : Type 0 where
  pub field : length l.field ≤ common_strategy.min_size
  pub fields : AllShort l.fields
  pub value : length l.value ≤ common_strategy.min_size
  pub values : AllShort l.values
  pub some_name : 0 < length (line_name l)
  pub name_room : length (line_name l) < common_strategy.max_size
  pub value_room : length (line_value l) < common_strategy.max_size

abbrev pub AllFit : List Line → Type 0
AllFit [] = Unit
AllFit (l ∷ ls) = Fits l × AllFit ls

abbrev pub with_lines : Message → List Line → Message
with_lines m ls = record m { headers = m.headers ++ map line_pair ls }

module _ {ℓ} {S : Type ℓ} (malloc : Malloc) (garbage : ℕ × ℕ) (stale : Bool)
    (handler : Handler S) where
  -- Callbacks that return 0 and leave the context alone, before any others.
  feed-cons :
      (c : Callback) (p q : HttpParser)
      → ((s : S) → call malloc garbage stale handler c p s ≡ ok (q, s, 0))
      → (rest : List Callback) (s : S)
      → feed malloc garbage stale handler (c ∷ rest) p s
        ≡ feed malloc garbage stale handler rest q s
  unfolding feed
  feed-cons c p q h rest s = rw (h s) refl

  pub record Passes (cs : List Callback) (p p' : HttpParser) : Type ℓ where
    pub passes :
        (s : S) (rest : List Callback)
        → feed malloc garbage stale handler (cs ++ rest) p s
          ≡ feed malloc garbage stale handler rest p' s

  pub Passes-nil : (p : HttpParser) → Passes [] p p
  Passes-nil p = record { passes = λ s rest. refl }

  pub Passes-cons :
      (c : Callback) {cs : List Callback} (p q : HttpParser) {r : HttpParser}
      → ((s : S) → call malloc garbage stale handler c p s ≡ ok (q, s, 0))
      → Passes cs q r
      → Passes (c ∷ cs) p r
  Passes-cons c {cs} p q h k = record {
    passes = λ s rest. feed-cons c p q h (cs ++ rest) s ∙ k.passes s rest;
  }

  pub Passes-append :
      {cs ds : List Callback} {p q r : HttpParser}
      → Passes cs p q
      → Passes ds q r
      → Passes (cs ++ ds) p r
  Passes-append {cs} {ds} h k = record {
    passes = λ s rest. rw (append_assoc cs ds rest) (h.passes s (ds ++ rest) ∙ k.passes s rest);
  }

  module _ (gives : Gives malloc) where
    -- The pieces of a target after the first.
    pub urls-Passes :
        (p : HttpParser) {st : ℕ} {m : Message} {t : Texts} (pieces : List (List ℕ))
        → Reads p st m t
        → AllShort pieces
        → length t.url + length (concat pieces) < common_strategy.max_size
        → m.is_request ≡ true
        → (p' : HttpParser) × Passes (map on_url pieces) p p'
          × Reads p' st m (record t { url = t.url ++ concat pieces })
    unfolding call
    urls-Passes p {t} [] r short room is = (p, Passes-nil p, rw (append-nil t.url) r)
    urls-Passes p {st} {m} {t} (at ∷ pieces) r short room is =
        let total = length-append at (concat pieces) in
        let (q, done, rq) = url_data_cb-Reads malloc gives p at r (short.0) (omega arith) in
        let same : message_set_is_request m true ≡ m =
          ap (λ b. message_set_is_request m b) (sym is) in
        let (p', k, r') =
          urls-Passes q pieces (rw same at rq) (short.1) (omega (arith, length-append t.url at))
            is in
        (
          p',
          Passes-cons (on_url at) p q (λ s. rw done refl) k,
          rw (append_assoc t.url at (concat pieces)) at r',
        )

    fields-Passes :
        (p : HttpParser) {m : Message} {t : Texts} (pieces : List (List ℕ))
        → Reads p field_state m t
        → AllShort pieces
        → length t.name + length (concat pieces) < common_strategy.max_size
        → (p' : HttpParser) × Passes (map on_header_field pieces) p p'
          × Reads p' field_state m (record t { name = t.name ++ concat pieces })
    unfolding call
    fields-Passes p {t} [] r short room = (p, Passes-nil p, rw (append-nil t.name) r)
    fields-Passes p {m} {t} (at ∷ pieces) r short room =
        let total = length-append at (concat pieces) in
        let (q, done, rq) =
          header_field_data_cb-Reads malloc gives p at r (short.0) (omega arith) in
        let (p', k, r') =
          fields-Passes q pieces rq (short.1) (omega (arith, length-append t.name at)) in
        (
          p',
          Passes-cons (on_header_field at) p q (λ s. rw done refl) k,
          rw (append_assoc t.name at (concat pieces)) at r',
        )

    values-Passes :
        (p : HttpParser) {m : Message} {t : Texts} (pieces : List (List ℕ))
        → Reads p value_state m t
        → AllShort pieces
        → length t.value + length (concat pieces) < common_strategy.max_size
        → (p' : HttpParser) × Passes (map on_header_value pieces) p p'
          × Reads p' value_state m (record t { value = t.value ++ concat pieces })
    unfolding call
    values-Passes p {t} [] r short room = (p, Passes-nil p, rw (append-nil t.value) r)
    values-Passes p {m} {t} (at ∷ pieces) r short room =
        let total = length-append at (concat pieces) in
        let (q, done, rq) =
          header_value_data_cb-Reads malloc gives p at r (short.0) (omega arith) in
        let (p', k, r') =
          values-Passes q pieces rq (short.1) (omega (arith, length-append t.value at)) in
        (
          p',
          Passes-cons (on_header_value at) p q (λ s. rw done refl) k,
          rw (append_assoc t.value at (concat pieces)) at r',
        )

    -- A whole line settles the line before it and leaves its own text in the buffers.
    pub line-Passes :
        (p : HttpParser) {st : ℕ} {m : Message} {t : Texts} (l : Line)
        → Opens st
        → Reads p st m t
        → Fits l
        → (p' : HttpParser) × Passes (line_callbacks l) p p'
          × Reads p' value_state
              (settled m t.name t.value)
              (record t { name = line_name l; value = line_value l })
    unfolding call
    line-Passes p l opens r fits =
        let (q, v, done, rq) =
          header_field_data_cb-Opens malloc gives p l.field opens r fits.field in
        let (f, more, rf) =
          fields-Passes q l.fields rq fits.fields
            (omega (arith, fits.name_room, length-append l.field (concat l.fields))) in
        let (w, first, rw_) = header_value_data_cb-first malloc gives f l.value rf fits.value in
        let (p', others, r') =
          values-Passes w l.values rw_ fits.values
            (omega (arith, fits.value_room, length-append l.value (concat l.values))) in
        (
          p',
          Passes-cons (on_header_field l.field) p q (λ s. rw done refl)
              (Passes-append more
                (Passes-cons (on_header_value l.value) f w (λ s. rw first refl) others)),
          r',
        )
