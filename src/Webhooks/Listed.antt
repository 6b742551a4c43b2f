-- ===== src/Webhooks/Listed.antt =====
-- The commits of a push whose paths _push_authority_job could read, none of them the policy's.
use extra_codeowners.Prelude.{
  ℕ, true, false, List, ◌∷◌, ◌++◌, ◌==◌, nat_eq, list_eq, list_beq_iff, any, any-append, contains,
  length, ◌≡◌, ◌≢◌, ◌≤◌, refl, sym, subst, inl, inr, Memᴰ, Option, none, some, Option-cases, arith,
}
use mathlib.Core.List.Memᴰ
use extra_codeowners.Text.{Str, text}
use extra_codeowners.Json.{
  Json, null, negative, real, string, list_of, boolean, natural, array, object, Items, no_items,
  item, Fields, get,
}
use extra_codeowners.Webhooks.Pushes.{
  Changes, texts_of, text_list, add_paths, add_commit, add_commits, changes_of, count_items, is_cut,
  may_be_forced,
}

-- a list of texts other than the policy's path
unfoldable pub Lists : Str → Option Json → Type 0
Lists policy o =
    (items : Items) × (o ≡ some (array items))
    × ((x : Json) → Memᴰ x (list_of items) → (path : Str) × (x ≡ string path) × (path ≢ policy))

-- a commit that lists all that it added, modified and removed, which is not the policy
unfoldable pub IsListed : Str → Json → Type 0
IsListed policy commit =
    (fields : Fields) × (commit ≡ object fields)
    × Lists policy (get (text "added") fields)
    × Lists policy (get (text "modified") fields)
    × Lists policy (get (text "removed") fields)

abbrev IsClean : Str → Changes → Type 0
IsClean policy changes = (changes.malformed ≡ false) × (contains changes.changed policy ≡ false)

differs : (path policy : Str) → (path == policy) ≡ false → path ≢ policy
differs path policy h same = cc ((list_beq_iff path policy).1 same)

texts_of-paths :
    (policy : Str) (items : Items) (paths : List Str)
    → texts_of items ≡ some paths
    → contains paths policy ≡ false
    → (x : Json) → Memᴰ x (list_of items)
    → (path : Str) × (x ≡ string path) × (path ≢ policy)
unfolding texts_of list_of
texts_of-paths policy no_items paths h clean x m = absurd (Memᴰ.not-nil m)
texts_of-paths policy (item null rest) paths h clean x m = cc
texts_of-paths policy (item (boolean b) rest) paths h clean x m = cc
texts_of-paths policy (item (natural n) rest) paths h clean x m = cc
texts_of-paths policy (item (negative n) rest) paths h clean x m = cc
texts_of-paths policy (item (real r) rest) paths h clean x m = cc
texts_of-paths policy (item (array a) rest) paths h clean x m = cc
texts_of-paths policy (item (object o) rest) paths h clean x m = cc
texts_of-paths policy (item (string s) rest) paths h clean x m =
    elim (Option-cases (texts_of rest)) [
      | inl nothing ↦ absurd (ground (arith, nothing))
      | inr (others, e) ↦
          let whole : paths ≡ s ∷ others = ground (arith, e) in
          let split : contains (s ∷ others) policy ≡ false =
            subst (λ ps. contains ps policy ≡ false) whole clean in
          let first : (s == policy) ≡ false = unfold contains any in ground arith in
          let later : contains others policy ≡ false = unfold contains any in ground arith in
          elim (Memᴰ.cases_cons m) [
            | inl here ↦ (s, here, differs s policy first)
            | inr there ↦ texts_of-paths policy rest others e later x there
          ]
    ]

text_list-Lists :
    (policy : Str) (o : Option Json) (paths : List Str)
    → text_list o ≡ some paths
    → contains paths policy ≡ false
    → Lists policy o
unfolding text_list Lists
text_list-Lists policy none paths h clean = cc
text_list-Lists policy (some null) paths h clean = cc
text_list-Lists policy (some (boolean b)) paths h clean = cc
text_list-Lists policy (some (natural n)) paths h clean = cc
text_list-Lists policy (some (negative n)) paths h clean = cc
text_list-Lists policy (some (real r)) paths h clean = cc
text_list-Lists policy (some (string s)) paths h clean = cc
text_list-Lists policy (some (object f)) paths h clean = cc
text_list-Lists policy (some (array items)) paths h clean =
    (items, refl, texts_of-paths policy items paths h clean)

contains-append :
    (xs ys : List Str) (policy : Str)
    → contains (xs ++ ys) policy ≡ false
    → (contains xs policy ≡ false) × (contains ys policy ≡ false)
unfolding contains
contains-append xs ys policy h =
    let both = any-append (λ x. x == policy) xs ys in (ground (arith, both), ground (arith, both))

add_paths-Lists :
    (policy : Str) (changes : Changes) (o : Option Json)
    → IsClean policy (add_paths changes (text_list o))
    → IsClean policy changes × Lists policy o
unfolding add_paths
add_paths-Lists policy changes o clean = by_paths (text_list o) refl clean
  where
    by_paths :
        (paths : Option (List Str))
        → text_list o ≡ paths
        → IsClean policy (add_paths changes paths)
        → IsClean policy changes × Lists policy o
    by_paths none e (well, free) = cc
    by_paths (some paths) e (well, free) =
        let (before, added) = contains-append changes.changed paths policy free in
        ((well, before), text_list-Lists policy o paths e added)

add_commit-IsListed :
    (policy : Str) (changes : Changes) (commit : Json)
    → IsClean policy (add_commit changes commit)
    → IsClean policy changes × IsListed policy commit
unfolding add_commit IsListed
add_commit-IsListed policy changes null (well, free) = cc
add_commit-IsListed policy changes (boolean b) (well, free) = cc
add_commit-IsListed policy changes (natural n) (well, free) = cc
add_commit-IsListed policy changes (negative n) (well, free) = cc
add_commit-IsListed policy changes (real r) (well, free) = cc
add_commit-IsListed policy changes (string s) (well, free) = cc
add_commit-IsListed policy changes (array a) (well, free) = cc
add_commit-IsListed policy changes (object fields) clean =
    let (clean2, removed) = add_paths-Lists policy _ (get (text "removed") fields) clean in
    let (clean1, modified) = add_paths-Lists policy _ (get (text "modified") fields) clean2 in
    let (clean0, added) = add_paths-Lists policy changes (get (text "added") fields) clean1 in
    (clean0, (fields, refl, added, modified, removed))

add_commits-IsListed :
    (policy : Str) (changes : Changes) (commits : Items)
    → IsClean policy (add_commits changes commits)
    → IsClean policy changes × ((c : Json) → Memᴰ c (list_of commits) → IsListed policy c)
unfolding add_commits list_of
add_commits-IsListed policy changes no_items clean = (clean, λ c m. absurd (Memᴰ.not-nil m))
add_commits-IsListed policy changes (item commit rest) clean =
    let (clean1, later) = add_commits-IsListed policy (add_commit changes commit) rest clean in
    let (clean0, listed) = add_commit-IsListed policy changes commit clean1 in
    (
      clean0,
      λ c m. elim (Memᴰ.cases_cons m) [
        | inl here ↦ subst (IsListed policy) (sym here) listed
        | inr there ↦ later c there
      ],
    )

count_items-list_of : (items : Items) → count_items items ≡ length (list_of items)
unfolding count_items list_of
count_items-list_of no_items = refl
count_items-list_of (item x rest) = omega (arith, count_items-list_of rest)

-- The payload lists every commit of a push that was not forced, each with its paths, none of them
-- the policy's.
unfoldable pub IsComplete : Str → Fields → Type 0
IsComplete policy payload =
    (commits : Items) × (get (text "commits") payload ≡ some (array commits))
    × ((c : Json) → Memᴰ c (list_of commits) → IsListed policy c)
    × ((n : ℕ) × (get (text "distinct_size") payload ≡ some (natural n))
        × (n ≤ length (list_of commits)))
    × (get (text "forced") payload ≡ some (boolean false))

pub changes_of-IsListed :
    (policy : Str) (o : Option Json)
    → (changes_of o).0.malformed ≡ false
    → contains (changes_of o).0.changed policy ≡ false
    → (commits : Items) × (o ≡ some (array commits))
      × ((changes_of o).1 ≡ length (list_of commits))
      × ((c : Json) → Memᴰ c (list_of commits) → IsListed policy c)
unfolding changes_of
changes_of-IsListed policy none well free = cc
changes_of-IsListed policy (some null) well free = cc
changes_of-IsListed policy (some (boolean b)) well free = cc
changes_of-IsListed policy (some (natural n)) well free = cc
changes_of-IsListed policy (some (negative n)) well free = cc
changes_of-IsListed policy (some (real r)) well free = cc
changes_of-IsListed policy (some (string s)) well free = cc
changes_of-IsListed policy (some (object f)) well free = cc
changes_of-IsListed policy (some (array commits)) well free = (
  commits,
  refl,
  count_items-list_of commits,
  (add_commits-IsListed policy _ commits (well, free)).1,
)

pub is_cut-size :
    (listed : ℕ) (o : Option Json)
    → is_cut listed o ≡ false
    → (n : ℕ) × (o ≡ some (natural n)) × (n ≤ listed)
unfolding is_cut
is_cut-size listed none h = cc
is_cut-size listed (some null) h = cc
is_cut-size listed (some (boolean b)) h = cc
is_cut-size listed (some (natural n)) h = (n, refl, ground arith)
is_cut-size listed (some (negative n)) h = cc
is_cut-size listed (some (real r)) h = cc
is_cut-size listed (some (string s)) h = cc
is_cut-size listed (some (array a)) h = cc
is_cut-size listed (some (object f)) h = cc

pub may_be_forced-false : (o : Option Json) → may_be_forced o ≡ false → o ≡ some (boolean false)
unfolding may_be_forced
may_be_forced-false none h = cc
may_be_forced-false (some null) h = cc
may_be_forced-false (some (boolean true)) h = cc
may_be_forced-false (some (boolean false)) h = refl
may_be_forced-false (some (natural n)) h = cc
may_be_forced-false (some (negative n)) h = cc
may_be_forced-false (some (real r)) h = cc
may_be_forced-false (some (string s)) h = cc
may_be_forced-false (some (array a)) h = cc
may_be_forced-false (some (object f)) h = cc
