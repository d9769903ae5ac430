-- ===== src/Server/Http/Checks.antt =====
-- longhaul-server/src/middleware.rs and router.rs: which requests pass the checks, with what body,
-- and what the responses carry.
use longhaul.Base.{
  String, ◌≡◌, refl, ap, ◌∙◌, ◌≢◌, ◌⊎◌, inl, inr, true, false, Option, none, some, arith, eq_iff,
  eq_refl, ◌==◌, Bool-cases,
}
use longhaul.Json.{ValueMethods}
use longhaul.Core.Http.{header_method, header_protocol_version, protocol_version}
use longhaul.Core.Tools.Outcome.{option_and_then}
use longhaul.Server.Http.{
  Transport, HttpRequest, HttpResponse, Service, mcp_method_check, check_version, check_method,
  read_body, compare_methods, body_method, body_limit, mcp_response_headers, mcp_route,
}

module _ (t : Transport) (methods : ValueMethods) {W : Type 0} (next : Service t W) where
  open t use {get, same_text, to_str, to_bytes, from_bytes, from_static}

  abbrev pub HasVersion : HttpRequest t → Type 0
  HasVersion req =
      (v : Transport.HeaderValue t) × (get req.headers header_protocol_version ≡ some v)
      × (same_text v protocol_version ≡ true)

  unfoldable pub named_method : HttpRequest t → Option String
  named_method req = option_and_then (get req.headers header_method) to_str

  -- the requests that are handed on, with the request that `next` gets
  pub data Accepted : (req : HttpRequest t) → HttpRequest t → Type 0 where
    unnamed : {req : HttpRequest t} → HasVersion req → named_method req ≡ none → Accepted req req
    agreeing :
        {req : HttpRequest t} (m : String) (b : Transport.Bytes t)
        → HasVersion req
        → named_method req ≡ some m
        → to_bytes req.body (body_limit t) ≡ some b
        → (body_method t methods next b ≡ none) ⊎ (body_method t methods next b ≡ some m)
        → Accepted req (record req { body = from_bytes b })

  pub data Refused (req : HttpRequest t) : Type 0 where
    unversioned : get req.headers header_protocol_version ≡ none → Refused req
    other_version :
        (v : Transport.HeaderValue t)
        → get req.headers header_protocol_version ≡ some v
        → same_text v protocol_version ≡ false
        → Refused req
    unreadable :
        (m : String)
        → HasVersion req
        → named_method req ≡ some m
        → to_bytes req.body (body_limit t) ≡ none
        → Refused req
    disagreeing :
        (m : String) (other : String) (b : Transport.Bytes t)
        → HasVersion req
        → named_method req ≡ some m
        → to_bytes req.body (body_limit t) ≡ some b
        → body_method t methods next b ≡ some other
        → other ≢ m
        → Refused req

  abbrev pub Judged : HttpRequest t → W → HttpResponse t × W → Type 0
  Judged req w r =
      ((handed : HttpRequest t) × Accepted req handed × (r ≡ next handed w))
      ⊎ (Refused req
          × (r.0.status ≡ 400)
          × (Transport.get t r.0.headers header_protocol_version ≡ none)
          × (r.1 ≡ w))

  compare_lem :
      (m : String) (b : Transport.Bytes t) (req : HttpRequest t) (w : W)
      → HasVersion req
      → named_method req ≡ some m
      → to_bytes req.body (body_limit t) ≡ some b
      → (o : Option String) → body_method t methods next b ≡ o
      → Judged req w (compare_methods t methods next m o (record req { body = from_bytes b }) req w)
  unfolding compare_methods
  compare_lem m b req w v n r none e =
      inl (record req { body = from_bytes b }, agreeing m b v n r (inl e), refl)
  compare_lem m b req w v n r (some bm) e = elim (Bool-cases (bm == m)) [
    | inl same ↦ rw same (
        inl (
          record req { body = from_bytes b },
          agreeing m b v n r (inr (e ∙ ap some ((eq_iff bm m).0 same))),
          refl,
        ))
    | inr other ↦ rw other (
        inr (
          disagreeing m bm b v n r e (λ q. ground (arith, q, other, eq_refl m)),
          refl,
          t.text_headers_plain,
          refl,
        ))
  ]

  read_lem :
      (m : String) (req : HttpRequest t) (w : W)
      → HasVersion req
      → named_method req ≡ some m
      → (o : Option (Transport.Bytes t)) → to_bytes req.body (body_limit t) ≡ o
      → Judged req w (read_body t methods next m o req w)
  unfolding read_body
  read_lem m req w v n none e = inr (unreadable m v n e, refl, t.text_headers_plain, refl)
  read_lem m req w v n (some b) e = compare_lem m b req w v n e (body_method t methods next b) refl

  method_lem :
      (req : HttpRequest t) (w : W)
      → HasVersion req
      → (o : Option String) → named_method req ≡ o
      → Judged req w (check_method t methods next o req w)
  unfolding check_method
  method_lem req w v none e = inl (req, unnamed v e, refl)
  method_lem req w v (some m) e = read_lem m req w v e (to_bytes req.body (body_limit t)) refl

  version_lem :
      (req : HttpRequest t) (w : W)
      → (o : Option (Transport.HeaderValue t)) → get req.headers header_protocol_version ≡ o
      → Judged req w (check_version t methods next o req w)
  unfolding check_version named_method
  version_lem req w none e = inr (unversioned e, refl, t.text_headers_plain, refl)
  version_lem req w (some v) e = elim (Bool-cases (same_text v protocol_version)) [
    | inl same ↦ rw same (method_lem req w (v, e, same) (named_method req) refl)
    | inr other ↦ rw other (inr (other_version v e other, refl, t.text_headers_plain, refl))
  ]

  -- A request either reaches the service, and then it names the protocol version and its readable
  -- Mcp-Method header, if any, agrees with the method of the body, if any; or it is answered with
  -- status 400, without a version header, and the state is as before.
  pub mcp_method_check_lem :
      (req : HttpRequest t) (w : W) → Judged req w (mcp_method_check t methods next req w)
  unfolding mcp_method_check
  mcp_method_check_lem req w = version_lem req w (get req.headers header_protocol_version) refl

module _ (t : Transport) (methods : ValueMethods) {W : Type 0} (post : Service t W) where
  open t use {get, from_static}

  -- what stands behind the check on the route `/mcp`
  abbrev pub inner : Service t W
  inner = mcp_response_headers t methods post

  -- A response of the route `/mcp` names the protocol version if the request has passed the check,
  -- whatever the handler has answered, and has no such header if the request has been refused.
  pub mcp_route-version :
      (req : HttpRequest t) (w : W)
      → (((handed : HttpRequest t) × Accepted t methods inner req handed)
          × (get (mcp_route t methods post req w).0.headers header_protocol_version
              ≡ some (from_static protocol_version)))
        ⊎ (Refused t methods inner req
            × (get (mcp_route t methods post req w).0.headers header_protocol_version ≡ none)
            × ((mcp_route t methods post req w).1 ≡ w))
  unfolding mcp_route mcp_response_headers
  mcp_route-version req w = elim (mcp_method_check_lem t methods inner req w) [
    | inl (handed, a, e) ↦
        inl (
          (handed, a),
          rw e (t.get-insert (from_static protocol_version) (post handed w).0.headers),
        )
    | inr (r, _, h, u) ↦ inr (r, h, u)
  ]
