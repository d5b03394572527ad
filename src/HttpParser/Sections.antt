-- ===== src/HttpParser/Sections.antt =====
-- The header lines of a message together, the end of its headers, and its body.
use c_http.Prelude.{
  ℕ, ◌≡◌, ◌<◌, refl, List, [], ◌∷◌, ◌++◌, Option, none, some, ok, arith, length, ap, sym, ◌∙◌, map,
  append_assoc, append-nil, eq_false,
}
use c_http.BufferChain.{BufferChain, empty_chain}
use c_http.BufferChain.Laws.{empty_chain-IsValid, empty_chain-contents}
use c_http.BufferChain.Append.{append-contents}
use c_http.Cbuffer.{Cbuffer}
use c_http.Cbuffer.Laws.{Gives}
use c_http.Cbuffer.Holds.{Holds, Holds-length}
use c_http.KvPair.{c_string, KvPair, kv_pair_new}
use c_http.HeaderList.{hdr_list_add_cbuf}
use c_http.Message.{Malloc, Message, message_set_version, message_set_method, message_set_body}
use c_http.Message.Serialize.{BodyIsValid, body_text}
use c_http.Message.Buffers.Fill.{message_set_target_cbuffer-Holds}
use c_http.HttpParser.{HttpParser, headers_complete_cb, body_data_cb, current_message}
use c_http.HttpParser.Step.{Texts, Reads, settled, current_message-Reads}
use c_http.HttpParser.Lines.{flush_header-Reads}
use c_http.HttpParser.Pieces.{Line, line_name, line_value, line_pair, with_lines}

pub settled-line :
    (m : Message) (l : Line)
    → 0 < length (line_name l)
    → settled m (line_name l) (line_value l) ≡ with_lines m (l ∷ [])
unfolding hdr_list_add_cbuf
settled-line m l h = split (line_name l) h
  where
    split :
        (name : List ℕ)
        → 0 < length name
        → settled m name (line_value l)
          ≡ record m { headers = m.headers ++ kv_pair_new name (line_value l) ∷ [] }
    split [] k = absurd (omega (arith, k))
    split (ch ∷ name) k = refl

pub with_lines-cons :
    (m : Message) (l : Line) (ls : List Line)
    → with_lines (with_lines m (l ∷ [])) ls ≡ with_lines m (l ∷ ls)
with_lines-cons m l ls =
    ap (λ (h : List KvPair). record m { headers = h })
      (append_assoc m.headers (line_pair l ∷ []) (map line_pair ls))

pub with_lines-nil : (m : Message) → with_lines m [] ≡ m
with_lines-nil m = ap (λ (h : List KvPair). record m { headers = h }) (append-nil m.headers)

-- Bytes of a body, behind those that are there.
abbrev pub Extends : (m m' : Message) → List ℕ → Type 0
Extends m m' bs =
    (m' ≡ record m { body = m'.body })
    × BodyIsValid m'.body
    × (body_text m'.body ≡ body_text m.body ++ bs)

pub body_data_cb-Reads :
    (malloc : Malloc) (p : HttpParser) {st : ℕ} {m : Message} {t : Texts} (at : List ℕ)
    → Gives malloc
    → Reads p st m t
    → BodyIsValid m.body
    → 0 < length at
    → (p' : HttpParser) × (m' : Message) × (body_data_cb malloc p at ≡ ok p')
      × Reads p' st m' t
      × Extends m m' at
unfolding body_data_cb
body_data_cb-Reads malloc p {st} {m} {t} at gives r v some_bytes = split m.body refl v
  where
    filled :
        (bc : BufferChain)
        → (p' : HttpParser) × (p' ≡ record p { current_message_ptr = some (message_set_body m bc) })
          × Reads p' st (message_set_body m bc) t
    filled bc = (
      record p { current_message_ptr = some (message_set_body m bc) },
      refl,
      record {
        message = refl;
        state = r.state;
        url_buf = r.url_buf;
        status_buf = r.status_buf;
        name_buf = r.name_buf;
        value_buf = r.value_buf;
      },
    )

    split :
        (body : Option BufferChain)
        → m.body ≡ body
        → BodyIsValid body
        → (p' : HttpParser) × (m' : Message) × (body_data_cb malloc p at ≡ ok p')
          × Reads p' st m' t
          × Extends m m' at
    split none e vb =
        let (c, done, vc, all) =
          append-contents malloc empty_chain at gives empty_chain-IsValid some_bytes in
        let (p', is, r') = filled c in
        (
          p',
          message_set_body m c,
          rw (body_data_cb, current_message-Reads r, e, done) (ap ok (sym is)),
          r',
          (refl, vc, rw e (all ∙ rw empty_chain-contents refl)),
        )
    split (some bc) e vb =
        let (c, done, vc, all) = append-contents malloc bc at gives vb some_bytes in
        let (p', is, r') = filled c in
        (
          p',
          message_set_body m c,
          rw (body_data_cb, current_message-Reads r, e, done) (ap ok (sym is)),
          r',
          (refl, vc, rw e all),
        )

-- `headers_complete_cb` of a request: the last line, the version, the method and the target.
pub headers_complete_cb-Reads :
    (malloc : Malloc) (p : HttpParser) {st : ℕ} {m : Message} {t : Texts} (m' : Message)
    (url : List ℕ) (cbuf : Cbuffer) (http_major http_minor method : ℕ)
    → Gives malloc
    → Reads p st m t
    → settled m t.name t.value ≡ m'
    → t.url ≡ url
    → m'.target ≡ some cbuf
    → Holds cbuf []
    → 0 < length url
    → length url < 512
    → (p' : HttpParser) × (c : Cbuffer) × (v : List ℕ) × (headers_complete_cb malloc p http_major
          http_minor method
        ≡ ok p')
      × Reads p' st
          (record m' { minor_vers = http_minor; method = method; target = some c })
          (record t { name = []; value = v })
      × Holds c (c_string url)
unfolding headers_complete_cb
headers_complete_cb-Reads malloc p {st} {m} {t} m' url cbuf http_major http_minor method gives r
      settles same e empty some_url short =
    let (f, v, flushed, rf) = flush_header-Reads p r in
    let m1 = message_set_method (message_set_version m' http_major http_minor) method in
    let url_holds : Holds f.m_url_buf url = rw same at rf.url_buf in
    let mref_is : current_message f ≡ ok m' = current_message-Reads rf ∙ ap ok settles in
    let (c, done, h) =
      message_set_target_cbuffer-Holds malloc m1 cbuf f.m_url_buf url gives e empty url_holds
        (url_holds.ended some_url) short in
    (
      record f { current_message_ptr = some (record m1 { target = some c }) },
      c,
      v,
      rw
          (
            flushed,
            mref_is,
            eq_false f.m_url_buf.m_length 0 (omega (arith, Holds-length url_holds)),
            done,
          )
          refl,
      record {
        message = refl;
        state = rf.state;
        url_buf = rf.url_buf;
        status_buf = rf.status_buf;
        name_buf = rf.name_buf;
        value_buf = rf.value_buf;
      },
      h,
    )
