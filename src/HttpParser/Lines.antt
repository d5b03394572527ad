-- ===== src/HttpParser/Lines.antt =====
-- What the callbacks for the pieces of header lines do.
use c_http.Prelude.{
  ℕ, ◌+◌, ◌≡◌, ◌≤◌, ◌<◌, refl, List, [], ◌∷◌, ◌++◌, some, true, ok, arith, length, inl, inr,
  eq_true, eq_false, ◌==◌, ◌||◌,
}
use c_http.Cbuffer.{common_strategy}
use c_http.Cbuffer.Laws.{Gives}
use c_http.Cbuffer.Holds.{Holds, Holds-length, clear-Holds, append-piece}
use c_http.Message.{Malloc, Message, message_add_header_cbuf}
use c_http.HttpParser.{
  HttpParser, nothing_state, field_state, value_state, flush_header, header_field_data_cb,
  header_value_data_cb,
}
use c_http.HttpParser.Step.{Texts, Reads, Opens, settled, current_message-Reads}

pub flush_header-Reads :
    (p : HttpParser) {st : ℕ} {m : Message} {t : Texts}
    → Reads p st m t
    → (p' : HttpParser) × (v : List ℕ) × (flush_header p ≡ ok p')
      × Reads p' st (settled m t.name t.value) (record t { name = []; value = v })
unfolding flush_header
flush_header-Reads p {st} {m} {t} r = split t.name r.name_buf
  where
    split :
        (name : List ℕ)
        → Holds p.m_name_buf name
        → (p' : HttpParser) × (v : List ℕ) × (flush_header p ≡ ok p')
          × Reads p' st (settled m name t.value) (record t { name = []; value = v })
    split [] h = (
      p,
      t.value,
      rw (flush_header, eq_true p.m_name_buf.m_length 0 (Holds-length h)) refl,
      record {
        message = r.message;
        state = r.state;
        url_buf = r.url_buf;
        status_buf = r.status_buf;
        name_buf = h;
        value_buf = r.value_buf;
      },
    )
    split (ch ∷ name) h =
        let (n, done_n, hn) = clear-Holds p.m_name_buf h.valid in
        let (v, done_v, hv) = clear-Holds p.m_value_buf r.value_buf.valid in
        let len = Holds-length h in
        (
          record p {
            current_message_ptr = some (message_add_header_cbuf m (ch ∷ name) t.value);
            m_name_buf = n;
            m_value_buf = v;
          },
          [],
          rw
              (
                flush_header,
                eq_false p.m_name_buf.m_length 0 (omega (arith, len)),
                current_message-Reads r,
                done_n,
                done_v,
                h.holds,
                r.value_buf.holds,
              )
              refl,
          record {
            message = refl;
            state = r.state;
            url_buf = r.url_buf;
            status_buf = r.status_buf;
            name_buf = hn;
            value_buf = hv;
          },
        )

Opens-true :
    (st : ℕ) → Opens st → ((st == 0) || (st == nothing_state) || (st == value_state)) ≡ true
Opens-true st (inl e) = rw e refl
Opens-true st (inr e) = rw e refl

module _ (malloc : Malloc) (gives : Gives malloc) where
  -- The first piece of a label settles the line before.
  pub header_field_data_cb-Opens :
      (p : HttpParser) {st : ℕ} {m : Message} {t : Texts} (at : List ℕ)
      → Opens st
      → Reads p st m t
      → length at ≤ common_strategy.min_size
      → (p' : HttpParser) × (v : List ℕ) × (header_field_data_cb malloc p at ≡ ok p')
        × Reads p' field_state (settled m t.name t.value) (record t { name = at; value = v })
  unfolding header_field_data_cb
  header_field_data_cb-Opens p {st} {m} {t} at opens r short =
      let (f, v, flushed, rf) = flush_header-Reads p r in
      let (n, done, h) =
        append-piece malloc f.m_name_buf [] at gives rf.name_buf short (omega arith) in
      (
        record f { m_name_buf = n; m_header_state = field_state },
        v,
        rw (Opens-true p.m_header_state (rw r.state opens), flushed, done) refl,
        record {
          message = rf.message;
          state = refl;
          url_buf = rf.url_buf;
          status_buf = rf.status_buf;
          name_buf = h;
          value_buf = rf.value_buf;
        },
      )

  -- A further piece of it.
  pub header_field_data_cb-Reads :
      (p : HttpParser) {m : Message} {t : Texts} (at : List ℕ)
      → Reads p field_state m t
      → length at ≤ common_strategy.min_size
      → length t.name + length at < common_strategy.max_size
      → (p' : HttpParser) × (header_field_data_cb malloc p at ≡ ok p')
        × Reads p' field_state m (record t { name = t.name ++ at })
  unfolding header_field_data_cb
  header_field_data_cb-Reads p {m} {t} at r short room =
      let (n, done, h) = append-piece malloc p.m_name_buf t.name at gives r.name_buf short room in
      (
        record p { m_name_buf = n; m_header_state = field_state },
        rw (r.state, done) refl,
        record {
          message = r.message;
          state = refl;
          url_buf = r.url_buf;
          status_buf = r.status_buf;
          name_buf = h;
          value_buf = r.value_buf;
        },
      )

  -- The first piece of a value.
  pub header_value_data_cb-first :
      (p : HttpParser) {m : Message} {t : Texts} (at : List ℕ)
      → Reads p field_state m t
      → length at ≤ common_strategy.min_size
      → (p' : HttpParser) × (header_value_data_cb malloc p at ≡ ok p')
        × Reads p' value_state m (record t { value = at })
  unfolding header_value_data_cb
  header_value_data_cb-first p {m} {t} at r short =
      let (c, cleared, hc) = clear-Holds p.m_value_buf r.value_buf.valid in
      let (v, done, h) = append-piece malloc c [] at gives hc short (omega arith) in
      (
        record p { m_value_buf = v; m_header_state = value_state },
        rw (r.state, cleared, done) refl,
        record {
          message = r.message;
          state = refl;
          url_buf = r.url_buf;
          status_buf = r.status_buf;
          name_buf = r.name_buf;
          value_buf = h;
        },
      )

  pub header_value_data_cb-Reads :
      (p : HttpParser) {m : Message} {t : Texts} (at : List ℕ)
      → Reads p value_state m t
      → length at ≤ common_strategy.min_size
      → length t.value + length at < common_strategy.max_size
      → (p' : HttpParser) × (header_value_data_cb malloc p at ≡ ok p')
        × Reads p' value_state m (record t { value = t.value ++ at })
  unfolding header_value_data_cb
  header_value_data_cb-Reads p {m} {t} at r short room =
      let (v, done, h) =
        append-piece malloc p.m_value_buf t.value at gives r.value_buf short room in
      (
        record p { m_value_buf = v; m_header_state = value_state },
        rw (r.state, done) refl,
        record {
          message = r.message;
          state = refl;
          url_buf = r.url_buf;
          status_buf = r.status_buf;
          name_buf = r.name_buf;
          value_buf = h;
        },
      )
