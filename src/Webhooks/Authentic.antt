-- ===== src/Webhooks/Authentic.antt =====
-- A delivery is believed, and its body read, only under the right signature.
use extra_codeowners.Prelude.{
  ℕ, ◌≤◌, Bool, true, false, not, ◌&&◌, ◌||◌, List, [], ◌∷◌, ◌++◌, ltb, leb, ◌==◌, nat_eq, list_eq,
  length, any, ◌≡◌, ◌≢◌, refl, sym, ap, ◌∙◌, Option, none, some, Result, ok, err, ◌>>=◌, ◌>>◌,
  refuse, refuse-inv, bind-inv, arith, list_beq, list_beq_iff,
}
use extra_codeowners.Text.{Str, text, is_prefix}
use extra_codeowners.Json.{
  Json, null, boolean, natural, negative, real, string, array, object, Fields,
}
use extra_codeowners.Webhooks.{
  LoadsError, undecodable, other_error, Failure, webhook_error, type_error, VerifiedWebhook,
}
use extra_codeowners.Webhooks.Verify.{
  is_blank, value_or_empty, compare_digest, action_of, object_root, parse_body, verify_webhook,
}

compare_digest-eq :
    (expected signature : Str) → compare_digest expected signature ≡ ok true → expected ≡ signature
unfolding compare_digest
compare_digest-eq expected signature h =
    let (_, _, same) =
      bind-inv (refuse (any (leb 128) expected || any (leb 128) signature) type_error) _ h in
    (list_beq_iff expected signature).0 (ground arith)

-- a header of one to 128 characters
unfoldable pub is_header : Str → Bool
is_header s = not (s == []) && leb (length s) 128

true_of_not : (b : Bool) → not b ≡ false → b ≡ true
true_of_not b h = ground arith

some_of : (o : Option Str) → is_blank o ≡ false → o ≡ some (value_or_empty o)
unfolding is_blank value_or_empty
some_of none h = ground arith
some_of (some s) h = refl

root_of :
    (o : Result LoadsError Json) (root : Fields) → object_root o ≡ ok root → o ≡ ok (object root)
unfolding object_root
root_of (err undecodable) root h = cc
root_of (err (other_error message)) root h = cc
root_of (ok null) root h = cc
root_of (ok (boolean b)) root h = cc
root_of (ok (natural n)) root h = cc
root_of (ok (negative n)) root h = cc
root_of (ok (real r)) root h = cc
root_of (ok (string s)) root h = cc
root_of (ok (array a)) root h = cc
root_of (ok (object o)) root h = ground arith

module _ (hexdigest : Str → List ℕ → Str) (loads : List ℕ → Result LoadsError Json) where
  abbrev signature_of : Str → List ℕ → Str
  signature_of secret body = text "sha256=" ++ hexdigest secret body

  -- the root of the body is the payload
  parse_body-payload :
      (body : List ℕ) (id event : Str) (w : VerifiedWebhook)
      → parse_body hexdigest loads body id event ≡ ok w
      → (loads body ≡ ok (object w.payload)) × (w.delivery_id ≡ id) × (w.event ≡ event)
  unfolding parse_body
  parse_body-payload body id event w h =
      let (payload, root, h1) = bind-inv (object_root (loads body)) _ h in
      let (action, _, h2) = bind-inv (action_of payload) _ h1 in
      let same : loads body ≡ ok (object payload) = root_of (loads body) payload root in
      (ground (arith, h2), ground (arith, h2), ground (arith, h2))

  -- A delivery that is accepted carries the signature of its body under the secret and the
  -- delivery and event of its headers, has at most 10 MiB, and its payload is the JSON object
  -- that the body is.
  pub verify_webhook-IsAuthentic :
      (body : List ℕ) (signature delivery_id event : Option Str) (secret : Str)
      (w : VerifiedWebhook)
      → verify_webhook hexdigest loads body signature delivery_id event secret ≡ ok w
      → (length body ≤ 10485760)
        × (signature ≡ some (text "sha256=" ++ hexdigest secret body))
        × (delivery_id ≡ some w.delivery_id)
        × (event ≡ some w.event)
        × (loads body ≡ ok (object w.payload))
  unfolding verify_webhook
  verify_webhook-IsAuthentic body signature delivery_id event secret w h =
      let (_, size, h1) = bind-inv (refuse (ltb 10485760 (length body)) _) _ h in
      let (_, signed, h2) =
        bind-inv
          (refuse
            (is_blank signature || not (is_prefix (text "sha256=") (value_or_empty signature))) _)
          _ h1 in
      let (_, delivered, h3) =
        bind-inv (refuse (is_blank delivery_id || ltb 128 (length (value_or_empty delivery_id))) _)
          _ h2 in
      let (_, named, h4) =
        bind-inv (refuse (is_blank event || ltb 128 (length (value_or_empty event))) _) _ h3 in
      let (same, compared, h5) =
        bind-inv (compare_digest (signature_of secret body) (value_or_empty signature)) _ h4 in
      let (_, matched, h6) = bind-inv (refuse (not same) _) _ h5 in
      let unblank = refuse-inv _ _ signed in
      let known = refuse-inv _ _ delivered in
      let told = refuse-inv _ _ named in
      let small = refuse-inv _ _ size in
      let equal : same ≡ true = true_of_not same (refuse-inv _ _ matched) in
      let (payload, id, kind) =
        parse_body-payload body (value_or_empty delivery_id) (value_or_empty event) w h6 in
      (
        ground arith,
        some_of signature (ground arith)
            ∙ ap some (
                sym (
                  compare_digest-eq (signature_of secret body) (value_or_empty signature)
                    (ground arith))),
        some_of delivery_id (ground arith) ∙ ap some (sym id),
        some_of event (ground arith) ∙ ap some (sym kind),
        payload,
      )

same_refuse :
    {B : Type 0} (b : Bool) (e : Failure) {k l : Result Failure B}
    → k ≡ l
    → (refuse b e >> k) ≡ (refuse b e >> l)
same_refuse true e h = refl
same_refuse false e h = h

unequal_bind :
    {B : Type 0} (m : Result Failure Bool) (e : Failure) (k l : Result Failure B)
    → m ≢ ok true
    → (m >>= λ same. refuse (not same) e >> k) ≡ (m >>= λ same. refuse (not same) e >> l)
unequal_bind (ok true) e k l h = absurd (h refl)
unequal_bind (ok false) e k l h = refl
unequal_bind (err f) e k l h = refl

unequal :
    (hexdigest : Str → List ℕ → Str) (body : List ℕ) (secret : Str) (signature : Option Str)
    → signature ≢ some (text "sha256=" ++ hexdigest secret body)
    → compare_digest (text "sha256=" ++ hexdigest secret body) (value_or_empty signature) ≢ ok true
unfolding value_or_empty text
unequal hexdigest body secret none wrong h = cc (compare_digest-eq _ _ h)
unequal hexdigest body secret (some s) wrong h = wrong (ap some (sym (compare_digest-eq _ _ h)))

-- Under another signature than that of the body, the answer is the same for every parser: the
-- body is not parsed.
pub unsigned_is_unread :
    (hexdigest : Str → List ℕ → Str) (loads other : List ℕ → Result LoadsError Json) (body : List ℕ)
    (signature delivery_id event : Option Str) (secret : Str)
    → signature ≢ some (text "sha256=" ++ hexdigest secret body)
    → verify_webhook hexdigest loads body signature delivery_id event secret
      ≡ verify_webhook hexdigest other body signature delivery_id event secret
unfolding verify_webhook
unsigned_is_unread hexdigest loads other body signature delivery_id event secret wrong =
    same_refuse (ltb 10485760 (length body))
      (webhook_error (text "webhook payload exceeds the 10 MiB limit"))
      (same_refuse
        (is_blank signature || not (is_prefix (text "sha256=") (value_or_empty signature)))
        (webhook_error (text "missing or malformed X-Hub-Signature-256"))
        (same_refuse (is_blank delivery_id || ltb 128 (length (value_or_empty delivery_id)))
          (webhook_error (text "missing or malformed X-GitHub-Delivery"))
          (same_refuse (is_blank event || ltb 128 (length (value_or_empty event)))
            (webhook_error (text "missing or malformed X-GitHub-Event"))
            (unequal_bind
              (compare_digest (text "sha256=" ++ hexdigest secret body) (value_or_empty signature))
              (webhook_error (text "webhook signature mismatch"))
              (parse_body hexdigest loads body (value_or_empty delivery_id) (value_or_empty event))
              (parse_body hexdigest other body (value_or_empty delivery_id) (value_or_empty event))
              (unequal hexdigest body secret signature wrong)))))

prefix_given : (s : Str) → is_prefix (text "sha256=") s ≡ true → (s == []) ≡ false
unfolding is_prefix text list_beq
prefix_given [] h = cc
prefix_given (c ∷ s) h = refl

-- A signature header with a character outside ASCII raises a TypeError, which is no WebhookError,
-- when the headers are well-formed otherwise and the body is within the limit.
non_ascii_signature_raises :
    (hexdigest : Str → List ℕ → Str) (loads : List ℕ → Result LoadsError Json) (body : List ℕ)
    (signature delivery_id event secret : Str)
    → length body ≤ 10485760
    → is_prefix (text "sha256=") signature ≡ true
    → any (leb 128) signature ≡ true
    → is_header delivery_id ≡ true
    → is_header event ≡ true
    → verify_webhook hexdigest loads body (some signature) (some delivery_id) (some event) secret
      ≡ err type_error
unfolding verify_webhook is_header
non_ascii_signature_raises hexdigest loads body signature delivery_id event secret size starts
      outside id kind =
    let given = prefix_given signature starts in ground arith
