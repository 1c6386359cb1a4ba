-- ===== src/Tests/Data.antt =====
-- A stored value that is a number: the revision of a single project, or zero for no project.
use rogatio.Prelude.{
  ℕ, zero, suc, ◌≡◌, refl, true, false, none, some, List, [], ◌∷◌, String, ◌==◌, arith, eq_iff,
}
use rogatio.Prelude.Dict.{get}
use rogatio.Schema.Types.{RogatioProject}
use rogatio.BrowserCore.Types.{StoredProject, StoredEnvelope}
use rogatio.BrowserCore.Store.{Store, Event}
use rogatio.BrowserCore.Envelope.{valid}
use rogatio.BrowserCore.Envelope.Valid.{IsValid, IsStored}
use rogatio.BrowserCore.Repository.{Platform}
use rogatio.BrowserCore.Repository.Keeps.{IsWellKept, EncodesValid, SameIsEqual}

abbrev pub contents : RogatioProject
contents = record {
  name = "Shop";
  description = none;
  groups = record { id = "g"; name = "Group"; rules = [] } ∷ [];
  local_origins = none;
}

abbrev pub other_contents : RogatioProject
other_contents = record contents { name = "Blog" }

abbrev pub shop : ℕ → StoredProject
shop revision = record {
  id = "a";
  name = "Shop";
  contents = contents;
  revision = revision;
  created_at = 5;
  updated_at = 5;
  enabled_group_ids = [];
  mock_file_root = none;
}

abbrev pub empty : StoredEnvelope
empty = record { projects = []; active_project_id = none; migration_notices = none }

abbrev pub one : ℕ → StoredEnvelope
one revision = record {
  projects = ("a", shop revision) ∷ [];
  active_project_id = some "a";
  migration_notices = none;
}

pub empty-IsValid : IsValid empty
unfolding get
empty-IsValid = record {
  distinct_keys = tt;
  stored = λ key p found. ground (arith, found);
  distinct_names = λ i j p q found others same. ground (arith, found);
  within_limit = omega arith;
  active = refl;
}

shop-IsStored : (revision : ℕ) → IsStored "a" (shop (suc revision))
shop-IsStored revision = record {
  keyed = refl;
  revised = omega arith;
  enabled_once = tt;
  enabled_known = refl;
}

one_project :
    (revision : ℕ) (key : String) (p : StoredProject)
    → get key (one (suc revision)).projects ≡ some p
    → ("a" ≡ key) × (shop (suc revision) ≡ p)
unfolding get
one_project revision key p found = ground (arith, found, eq_iff "a" key)

pub one-IsValid : (revision : ℕ) → IsValid (one (suc revision))
unfolding get
one-IsValid revision = record {
  distinct_keys = (refl, tt);
  stored = λ key p found.
      let (at, is) = one_project revision key p found in rw (← is, ← at) (shop-IsStored revision);
  distinct_names =
      λ i j p q found others same. ground (arith, found, others, eq_iff "a" i, eq_iff "a" j);
  within_limit = omega arith;
  active = λ missing. ground (arith, missing);
}

abbrev envelope_of : ℕ → StoredEnvelope
envelope_of zero = empty
envelope_of (suc revision) = one (suc revision)

abbrev revision_of : List (String × StoredProject) → ℕ
revision_of [] = 0
revision_of ((key, project) ∷ projects) = project.revision

abbrev pub platform : Platform ℕ RogatioProject
platform = record {
  same = λ a b. a == b;
  migrate = λ revision. some (envelope_of revision);
  encode = λ envelope. revision_of envelope.projects;
  validate = valid;
}

envelope_of-IsValid : (revision : ℕ) → IsValid (envelope_of revision)
envelope_of-IsValid zero = empty-IsValid
envelope_of-IsValid (suc revision) = one-IsValid revision

decoded-IsValid :
    (revision : ℕ) (decoded : StoredEnvelope)
    → platform.migrate revision ≡ some decoded
    → IsValid decoded
decoded-IsValid revision decoded e =
    let same : envelope_of revision ≡ decoded = ground (arith, e) in
    rw (← same) (envelope_of-IsValid revision)

pub platform-EncodesValid : EncodesValid platform
platform-EncodesValid envelope v decoded e = decoded-IsValid _ decoded e

pub platform-SameIsEqual : SameIsEqual platform
platform-SameIsEqual a b same = ground (arith, same)

-- Another writer saves in between, and one call throws.
abbrev pub events : List (Event ℕ)
events =
    record { foreign = none; throws = false; clock = 6 }
    ∷ record { foreign = some 4; throws = false; clock = 7 }
    ∷ record { foreign = none; throws = true; clock = 8 }
    ∷ []

abbrev pub store : Store ℕ
store = record { content = 1; clock = 5; events = events }

abbrev pub quiet : Store ℕ
quiet = record { content = 1; clock = 5; events = [] }

pub store-IsWellKept : IsWellKept platform store
store-IsWellKept = record {
  content_good = λ envelope e. decoded-IsValid 1 envelope e;
  events_good = (
    λ raw e envelope. decoded-IsValid raw envelope,
    (
      λ raw e envelope. decoded-IsValid raw envelope,
      (λ raw e envelope. decoded-IsValid raw envelope, tt),
    ),
  );
}
