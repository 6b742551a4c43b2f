-- ===== src/Webhooks/Requested.antt =====
-- What every job that a delivery asks for is bound to.
use extra_codeowners.Prelude.{
  ℕ, ◌≤◌, Bool, true, false, [], ◌++◌, ◌==◌, nat_eq, list_eq, any, any-append, contains, ◌≡◌, refl,
  subst, ◌∙◌, ◌⊎◌, if◌then◌else◌, Option, none, some, Result, ok, err, ◌>>=◌, bind-inv, arith,
  list_beq_iff, inl, inr,
}
use extra_codeowners.Text.{Str, text, Unicode}
use extra_codeowners.Json.{
  Json, null, boolean, natural, negative, real, string, array, object, Fields, get,
}
use extra_codeowners.Epochs.{interactive}
use extra_codeowners.Webhooks.{
  Failure, JobRequest, AuthorityRequest, Work, no_work, job, authority, value_error_as, escaping,
}
use extra_codeowners.Webhooks.Requests.{
  is_object_id, validate_head_object, normalize_repository_full_name, validate_base_ref_hint,
  is_recovery_reason, class_of, new_job_request, new_authority_request, normalize_optional_name,
  periodic_reconciliation_reason, scheduled_recheck_reason,
}
use extra_codeowners.Webhooks.Pulls.{
  positive_int, installation_id_of, repository_name, head_sha_of, reason_of, head_job, dict_or,
}
use extra_codeowners.Webhooks.Pushes.{authority_of}

pub positive_int-positive : (f : Str) (v : Option Json) (n : ℕ) → positive_int f v ≡ ok n → 1 ≤ n
unfolding positive_int
positive_int-positive f none n h = cc
positive_int-positive f (some null) n h = cc
positive_int-positive f (some (boolean b)) n h = cc
positive_int-positive f (some (natural m)) n h = ground arith
positive_int-positive f (some (negative m)) n h = cc
positive_int-positive f (some (real r)) n h = cc
positive_int-positive f (some (string s)) n h = cc
positive_int-positive f (some (array a)) n h = cc
positive_int-positive f (some (object o)) n h = cc

installation_id_of-positive : (payload : Fields) (n : ℕ) → installation_id_of payload ≡ ok n → 1 ≤ n
unfolding installation_id_of
installation_id_of-positive payload n h =
    let (installation, _, h1) =
      bind-inv (dict_or (text "webhook omitted installation") (get (text "installation") payload)) _
        h in
    positive_int-positive (text "installation.id") (get (text "id") installation) n h1

validate_head_object-id :
    (m value sha : Str)
    → value_error_as m (validate_head_object value) ≡ ok sha
    → is_object_id sha ≡ true
unfolding value_error_as validate_head_object
validate_head_object-id m value sha h = ground arith

pub head_sha_of-id :
    (f : Str) (v : Option Json) (sha : Str) → head_sha_of f v ≡ ok sha → is_object_id sha ≡ true
unfolding head_sha_of
head_sha_of-id f none sha h = cc
head_sha_of-id f (some null) sha h = cc
head_sha_of-id f (some (boolean b)) sha h = cc
head_sha_of-id f (some (natural n)) sha h = cc
head_sha_of-id f (some (negative n)) sha h = cc
head_sha_of-id f (some (real r)) sha h = cc
head_sha_of-id f (some (string s)) sha h = validate_head_object-id _ s sha h
head_sha_of-id f (some (array a)) sha h = cc
head_sha_of-id f (some (object o)) sha h = cc

-- A recovery reason has no dot, and a webhook's has one.
recovery_has_no_dot :
    (reason : Str) → contains reason b'.' ≡ true → is_recovery_reason reason ≡ false
unfolding is_recovery_reason
recovery_has_no_dot reason h =
    let periodic = list_beq_iff reason periodic_reconciliation_reason in
    let scheduled = list_beq_iff reason scheduled_recheck_reason in
    let no_dot : contains periodic_reconciliation_reason b'.' ≡ false =
      unfold contains any text in refl in
    let no_dot' : contains scheduled_recheck_reason b'.' ≡ false =
      unfold contains any text in refl in
    ground (arith, no_dot, no_dot')

pub reason_of-dot : (event action : Str) → contains (reason_of event action) b'.' ≡ true
unfolding reason_of contains any text
reason_of-dot event action = ground (
  arith,
  any-append (λ x. x == b'.') event
      (text "." ++ (if action == [] then text "received" else action)),
)

-- no repository, or one under its canonical name
abbrev pub IsScope : Unicode → Option Str → Type 0
IsScope u o =
    (o ≡ none)
    ⊎ ((raw : Str) × (name : Str) × (o ≡ some name)
        × (normalize_repository_full_name u raw ≡ ok name))

normalize_optional_name-IsScope :
    (u : Unicode) (o name : Option Str) → normalize_optional_name u o ≡ ok name → IsScope u name
unfolding normalize_optional_name
normalize_optional_name-IsScope u none name h = inl (ground arith)
normalize_optional_name-IsScope u (some raw) name h =
    let (normalized, e, h1) = bind-inv (normalize_repository_full_name u raw) _ h in
    inr (raw, normalized, ground arith, e)

new_authority_request-kept :
    (u : Unicode) (asked r : AuthorityRequest)
    → new_authority_request u asked ≡ ok r
    → IsScope u r.repository_full_name × (r.installation_id ≡ asked.installation_id)
unfolding new_authority_request
new_authority_request-kept u asked r h =
    let (name, normalized, h1) =
      bind-inv (normalize_optional_name u asked.repository_full_name) _ h in
    let same : name ≡ r.repository_full_name = ground arith in
    (
      subst (IsScope u) same
          (normalize_optional_name-IsScope u asked.repository_full_name name normalized),
      ground arith,
    )

-- A job for one head of one pull request, under a positive installation and pull number, with a
-- canonical head and repository, in the interactive class.
pub record IsExact (u : Unicode) (r : JobRequest) : Type 0 where
  pub installation : 1 ≤ r.installation_id
  pub number : 1 ≤ r.pull_number
  pub head : (sha : Str) × (r.head_sha_hint ≡ some sha) × (is_object_id sha ≡ true)
  pub name : (raw : Str) × (normalize_repository_full_name u raw ≡ ok r.repository_full_name)
  pub work_class : r.work_class ≡ interactive

escaping-inv : {A : Type 0} (m : Result Str A) {a : A} → escaping m ≡ ok a → m ≡ ok a
unfolding escaping
escaping-inv (ok a) h = ground arith
escaping-inv (err e) h = cc

new_job_request-kept :
    (u : Unicode) (asked r : JobRequest)
    → new_job_request u asked ≡ ok r
    → (normalize_repository_full_name u asked.repository_full_name ≡ ok r.repository_full_name)
      × (r.installation_id ≡ asked.installation_id)
      × (r.pull_number ≡ asked.pull_number)
      × (r.head_sha_hint ≡ asked.head_sha_hint)
      × (r.work_class ≡ class_of asked.reason asked.work_class)
unfolding new_job_request
new_job_request-kept u asked r h =
    let (name, normalized, h1) =
      bind-inv (normalize_repository_full_name u asked.repository_full_name) _ h in
    let (_, _, h2) = bind-inv (validate_base_ref_hint asked.base_ref_hint) _ h1 in
    (ground arith, ground arith, ground arith, ground arith, ground arith)

-- The fan-out of one repository of an installation, or of all its repositories.
pub record IsScoped (u : Unicode) (r : AuthorityRequest) : Type 0 where
  pub installation : 1 ≤ r.installation_id
  pub scope : IsScope u r.repository_full_name

unfoldable pub IsFine : Unicode → Work → Type 0
IsFine u no_work = Unit
IsFine u (job r) = IsExact u r
IsFine u (authority r) = IsScoped u r

-- what is returned, if anything is, is fine
abbrev pub Good : Unicode → Result Failure Work → Type 0
Good u m = (w : Work) → m ≡ ok w → IsFine u w

pub bind-Good :
    (u : Unicode) {A : Type 0} (m : Result Failure A) {f : A → Result Failure Work}
    → ((a : A) → m ≡ ok a → Good u (f a))
    → Good u (m >>= f)
bind-Good u (ok a) h w e = h a refl w e
bind-Good u (err f) h w e = cc

pub if-Good :
    (u : Unicode) (b : Bool) {m n : Result Failure Work}
    → Good u m
    → Good u n
    → Good u (if b then m else n)
if-Good u true h k = h
if-Good u false h k = k

pub no_work-Good : (u : Unicode) → Good u (ok no_work)
unfolding IsFine
no_work-Good u no_work h = tt
no_work-Good u (job r) h = cc
no_work-Good u (authority r) h = cc

job-IsFine : {u : Unicode} (r : JobRequest) (w : Work) → job r ≡ w → IsExact u r → IsFine u w
unfolding IsFine
job-IsFine {u} r w e x = subst (IsFine u) e x

authority-IsFine :
    {u : Unicode} (r : AuthorityRequest) (w : Work) → authority r ≡ w → IsScoped u r → IsFine u w
unfolding IsFine
authority-IsFine {u} r w e x = subst (IsFine u) e x

pub authority_of-Good :
    (u : Unicode) (payload : Fields) (name base_ref : Option Str) (reason : Str)
    → Good u (authority_of u payload name base_ref reason)
unfolding authority_of
authority_of-Good u payload name base_ref reason w h =
    let (id, is_id, h1) = bind-inv (installation_id_of payload) _ h in
    let asked : AuthorityRequest = record {
      installation_id = id;
      repository_full_name = name;
      base_ref = base_ref;
      reason = reason;
    } in
    let (r, made, h2) = bind-inv (escaping (new_authority_request u asked)) _ h1 in
    let (scope, same_id) = new_authority_request-kept u asked r (escaping-inv _ made) in
    authority-IsFine r w (ground arith) (record {
      installation = ground (arith, installation_id_of-positive payload id is_id);
      scope = scope;
    })

pub head_job-Good :
    (u : Unicode) (payload : Fields) (number : ℕ) (reason sha : Str) (hint : Option Str)
    → 1 ≤ number
    → is_object_id sha ≡ true
    → contains reason b'.' ≡ true
    → Good u (head_job u payload number reason sha hint)
unfolding head_job
head_job-Good u payload number reason sha hint positive oid dotted w h =
    let (id, is_id, h1) = bind-inv (installation_id_of payload) _ h in
    let (name, _, h2) = bind-inv (repository_name u payload) _ h1 in
    let asked : JobRequest = record {
      installation_id = id;
      repository_full_name = name;
      pull_number = number;
      reason = reason;
      head_sha_hint = some sha;
      work_class = interactive;
      observed_at = none;
      base_ref_hint = hint;
    } in
    let (r, made, h3) = bind-inv (escaping (new_job_request u asked)) _ h2 in
    let (normalized, same_id, same_number, same_sha, same_class) =
      new_job_request-kept u asked r (escaping-inv _ made) in
    job-IsFine r w (ground arith) (record {
      installation = ground (arith, installation_id_of-positive payload id is_id);
      number = ground arith;
      head = (sha, same_sha, oid);
      name = (name, normalized);
      work_class = same_class ∙ kept reason (recovery_has_no_dot reason dotted);
    })
  where
    kept :
        (reason : Str)
        → is_recovery_reason reason ≡ false
        → class_of reason interactive ≡ interactive
    kept reason e = unfold class_of in ground arith
