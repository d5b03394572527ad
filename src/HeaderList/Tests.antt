-- ===== src/HeaderList/Tests.antt =====
-- Two header lines.
use c_http.Prelude.{◌≡◌, refl, [], ◌∷◌, some, ok, arith, ap, length, replicate, length-replicate}
use c_http.Cbuffer.{Cbuffer, Malloc}
use c_http.Cbuffer.Laws.{Gives, IsValid, bytes}
use c_http.KvPair.{KvPair, kv_pair_new, make_upper}
use c_http.HeaderList.{
  HeaderList, hdr_list_find, hdr_list_remove, hdr_list_add_cstr, hdr_list_serialize,
}
use c_http.HeaderList.Find.{hdr_list_find-add_cstr, hdr_list_find-remove}
use c_http.HeaderList.Lines.{hdr_list_serialize-text}

abbrev zeros : Malloc
zeros n = replicate n 0

zeros-Gives : Gives zeros
zeros-Gives n = length-replicate n 0

-- "A: 1" and "BC: 2"
abbrev line_a : KvPair
line_a = record { label = 65 ∷ 0 ∷ []; label_len = 1; value = 49 ∷ 0 ∷ []; value_len = 1 }

abbrev line_bc : KvPair
line_bc = record { label = 66 ∷ 67 ∷ 0 ∷ []; label_len = 2; value = 50 ∷ 0 ∷ []; value_len = 1 }

abbrev headers : HeaderList
headers = line_a ∷ line_bc ∷ []

-- "bC" is found whatever the case of its letters.
find_bc : hdr_list_find headers (98 ∷ 67 ∷ 0 ∷ []) ≡ some line_bc
unfolding hdr_list_find make_upper
find_bc = refl

hdr_list_find-add_cstr_example :
    hdr_list_find (hdr_list_add_cstr headers (100 ∷ 0 ∷ []) (51 ∷ 0 ∷ [])) (68 ∷ 0 ∷ [])
    ≡ some (kv_pair_new (100 ∷ []) (51 ∷ []))
unfolding hdr_list_find make_upper
hdr_list_find-add_cstr_example =
    hdr_list_find-add_cstr headers (100 ∷ 0 ∷ []) (51 ∷ 0 ∷ []) (68 ∷ 0 ∷ [])

hdr_list_find-remove_example :
    hdr_list_find (hdr_list_remove headers (97 ∷ 0 ∷ [])) (98 ∷ 99 ∷ 0 ∷ [])
    ≡ hdr_list_find headers (98 ∷ 99 ∷ 0 ∷ [])
hdr_list_find-remove_example =
    hdr_list_find-remove headers (97 ∷ 0 ∷ []) (98 ∷ 99 ∷ 0 ∷ [])
      (λ e. absurd (omega (arith, ap length e)))

hdr_list_serialize-text_example :
    (cb : Cbuffer) × (hdr_list_serialize zeros headers ≡ ok cb)
    × IsValid cb
    × (bytes cb ≡ 65 ∷ 58 ∷ 32 ∷ 49 ∷ 13 ∷ 10 ∷ 66 ∷ 67 ∷ 58 ∷ 32 ∷ 50 ∷ 13 ∷ 10 ∷ [])
hdr_list_serialize-text_example =
    hdr_list_serialize-text zeros headers zeros-Gives
      (omega arith, omega arith, (omega arith, omega arith, tt)) (omega arith)
