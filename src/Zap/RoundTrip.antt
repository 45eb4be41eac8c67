-- ===== src/Zap/RoundTrip.antt =====
-- ZAP messages decode to what was encoded, and only such frames decode.
use libzmq_ru.Base.{
  ℕ, ◌≡◌, ◌↔◌, refl, ap, sym, subst, ◌∙◌, true, List, [], ◌∷◌, bytes_eq, bytes_eq_iff, arith,
  Bool-cases, inl, inr,
}
use libzmq_ru.Base.Utf8.{is_utf8}
use libzmq_ru.Error.{step_succeeds, Result, ok, err}
use libzmq_ru.Zap.{
  ZapRequest, ZapReply, zap_version, decode_utf8, encode_request, request_of, decode_request,
  encode_reply, reply_of, decode_reply,
}

-- A request of this version, whose strings are strings.
abbrev pub IsRequest : ZapRequest → Type 0
IsRequest r =
    (r.version ≡ zap_version) × (is_utf8 r.request_id ≡ true) × (is_utf8 r.mechanism ≡ true)

abbrev pub IsReply : ZapReply → Type 0
IsReply r =
    (r.version ≡ zap_version)
    × (is_utf8 r.request_id ≡ true)
    × (is_utf8 r.status_code ≡ true)
    × (is_utf8 r.status_text ≡ true)

version-is_utf8 : (v : List ℕ) → v ≡ zap_version → is_utf8 v ≡ true
version-is_utf8 v same = ap is_utf8 same ∙ (unfold is_utf8 in refl)

decode_request-encode : (r : ZapRequest) → IsRequest r → decode_request (encode_request r) ≡ ok r
unfolding decode_request encode_request decode_utf8 request_of
decode_request-encode r (version, id, mechanism) =
    rw
      (
        (bytes_eq_iff r.version zap_version).1 version,
        version-is_utf8 r.version version,
        id,
        mechanism,
      )
      refl

decode_reply-encode : (r : ZapReply) → IsReply r → decode_reply (encode_reply r) ≡ ok r
unfolding decode_reply encode_reply decode_utf8 reply_of
decode_reply-encode r (version, id, code, text) =
    rw
      (
        (bytes_eq_iff r.version zap_version).1 version,
        version-is_utf8 r.version version,
        id,
        code,
        text,
      )
      refl

decode_utf8-ok : (bytes s : List ℕ) → decode_utf8 bytes ≡ ok s → (bytes ≡ s) × (is_utf8 s ≡ true)
unfolding decode_utf8
decode_utf8-ok bytes s h = ground arith

request_or : ZapRequest → Result ZapRequest → ZapRequest
request_or r (ok q) = q
request_or r (err e) = r

reply_or : ZapReply → Result ZapReply → ZapReply
reply_or r (ok q) = q
reply_or r (err e) = r

request_of-ok :
    (version id domain address identity mechanism : List ℕ) (credentials : List (List ℕ))
    (r : ZapRequest)
    → bytes_eq version zap_version ≡ true
    → request_of version id domain address identity mechanism credentials ≡ ok r
    → ((version ∷ id ∷ domain ∷ address ∷ identity ∷ mechanism ∷ credentials) ≡ encode_request r)
      × IsRequest r
unfolding request_of encode_request request_or
request_of-ok version id domain address identity mechanism credentials r same h =
    let (v, hv, h1) = step_succeeds (decode_utf8 version) _ h in
    let (i, hi, h2) = step_succeeds (decode_utf8 id) _ h1 in
    let (m, hm, h3) = step_succeeds (decode_utf8 mechanism) _ h2 in
    let sv = decode_utf8-ok version v hv in
    let si = decode_utf8-ok id i hi in
    let sm = decode_utf8-ok mechanism m hm in
    let known = (bytes_eq_iff version zap_version).0 same in
    subst
      (λ q.
        ((version ∷ id ∷ domain ∷ address ∷ identity ∷ mechanism ∷ credentials) ≡ encode_request q)
        × IsRequest q)
      (ap (request_or r) h3) (cc (sv.0, si.0, sm.0), (sym sv.0 ∙ known, si.1, sm.1))

decode_request-ok :
    (frames : List (List ℕ)) (r : ZapRequest)
    → decode_request frames ≡ ok r
    → (frames ≡ encode_request r) × IsRequest r
unfolding decode_request
decode_request-ok (version ∷ id ∷ domain ∷ address ∷ identity ∷ mechanism ∷ credentials) r h =
    elim (Bool-cases (bytes_eq version zap_version)) [
      | inl same ↦
          request_of-ok version id domain address identity mechanism credentials r same
            (ground (arith, h, same))
      | inr other ↦ absurd (ground (arith, h, other))
    ]
decode_request-ok _ r h = absurd (ground (arith, h))

reply_of-ok :
    (version id status_code status_text user_id metadata : List ℕ) (r : ZapReply)
    → bytes_eq version zap_version ≡ true
    → reply_of version id status_code status_text user_id metadata ≡ ok r
    → ((version ∷ id ∷ status_code ∷ status_text ∷ user_id ∷ metadata ∷ []) ≡ encode_reply r)
      × IsReply r
unfolding reply_of encode_reply reply_or
reply_of-ok version id status_code status_text user_id metadata r same h =
    let (v, hv, h1) = step_succeeds (decode_utf8 version) _ h in
    let (i, hi, h2) = step_succeeds (decode_utf8 id) _ h1 in
    let (c, hc, h3) = step_succeeds (decode_utf8 status_code) _ h2 in
    let (t, ht, h4) = step_succeeds (decode_utf8 status_text) _ h3 in
    let sv = decode_utf8-ok version v hv in
    let si = decode_utf8-ok id i hi in
    let sc = decode_utf8-ok status_code c hc in
    let st = decode_utf8-ok status_text t ht in
    let known = (bytes_eq_iff version zap_version).0 same in
    subst
      (λ q.
        ((version ∷ id ∷ status_code ∷ status_text ∷ user_id ∷ metadata ∷ []) ≡ encode_reply q)
        × IsReply q)
      (ap (reply_or r) h4) (cc (sv.0, si.0, sc.0, st.0), (sym sv.0 ∙ known, si.1, sc.1, st.1))

decode_reply-ok :
    (frames : List (List ℕ)) (r : ZapReply)
    → decode_reply frames ≡ ok r
    → (frames ≡ encode_reply r) × IsReply r
unfolding decode_reply
decode_reply-ok (version ∷ id ∷ status_code ∷ status_text ∷ user_id ∷ metadata ∷ []) r h =
    elim (Bool-cases (bytes_eq version zap_version)) [
      | inl same ↦
          reply_of-ok version id status_code status_text user_id metadata r same
            (ground (arith, h, same))
      | inr other ↦ absurd (ground (arith, h, other))
    ]
decode_reply-ok _ r h = absurd (ground (arith, h))

-- Frames decode to a ZAP request, or to a reply, exactly if they are its encoding, its version is
-- "1.0", and its strings are valid UTF-8: the codecs are inverse to each other.
pub zap_codecs :
    (frames : List (List ℕ)) (q : ZapRequest) (r : ZapReply)
    → ((decode_request frames ≡ ok q) ↔ ((frames ≡ encode_request q) × IsRequest q))
      × ((decode_reply frames ≡ ok r) ↔ ((frames ≡ encode_reply r) × IsReply r))
zap_codecs frames q r = (
  (decode_request-ok frames q, λ e. ap decode_request e.0 ∙ decode_request-encode q e.1),
  (decode_reply-ok frames r, λ e. ap decode_reply e.0 ∙ decode_reply-encode r e.1),
)
