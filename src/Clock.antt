-- ===== src/Clock.antt =====
-- src/clock.rs: receipt summaries. Of every site a `Version` keeps the highest contiguous sequence
-- number received and the set of those received above it.
pub mod Absorb
pub mod Algebra
pub mod Canonical
pub mod Checkpoint
pub mod Covers
pub mod Payload
pub mod Receipts
use esbt_web.Base.{
  ℕ, zero, suc, ◌+◌, ◌-◌, ◌<◌, ◌≤◌, max, ◌≡◌, refl, Bool, true, false, not, ◌&&◌, ◌||◌, Option,
  none, some, List, [], ◌∷◌, length, ltb, leb, ◌==◌, if◌then◌else◌, checked_add64, unwrap_or,
}
use esbt_web.Base.OrdSet
use esbt_web.Base.OrdMap

pub record SiteVersion : Type 0 where
  pub contiguous : ℕ
  pub seen_after : List ℕ

pub record Version : Type 0 where
  pub sites : List (ℕ × SiteVersion)
  pub sparse_count : ℕ

-- `SiteVersion::default()` and `Version::default()`.
abbrev pub no_receipts : SiteVersion
no_receipts = record { contiguous = 0; seen_after = [] }

abbrev pub empty : Version
empty = record { sites = []; sparse_count = 0 }

-- `while let Some(next) = contiguous.checked_add(1) { if !seen_after.remove(&next) { break; } … }`.
-- Each round takes a number out of the set, so its size is fuel enough.
unfoldable pub absorb : ℕ → ℕ → List ℕ → SiteVersion
absorb zero c l = record { contiguous = c; seen_after = l }
absorb (suc fuel) c l = elim (checked_add64 c 1) [
  | none ↦ record { contiguous = c; seen_after = l }
  | some next ↦ elim (OrdSet.contains next l) [
    | false ↦ record { contiguous = c; seen_after = l }
    | true ↦ absorb fuel next (OrdSet.remove next l)
  ]
]

-- `contiguous.checked_add(1) == Some(seq)`.
abbrev pub is_next : ℕ → ℕ → Bool
is_next c seq = elim (checked_add64 c 1) [ none ↦ false | some next ↦ next == seq ]

unfoldable pub note_state : SiteVersion → ℕ → SiteVersion
unfolding absorb
note_state state seq =
    if seq == 0 || leb seq state.contiguous
    then state
    else if is_next state.contiguous seq
    then absorb (length state.seen_after) seq state.seen_after
    else record state { seen_after = OrdSet.insert seq state.seen_after }

abbrev pub state_of : ℕ → List (ℕ × SiteVersion) → SiteVersion
state_of site sites = unwrap_or no_receipts (OrdMap.lookup site sites)

-- `sites.entry(site).or_default()`.
abbrev pub or_default : ℕ → List (ℕ × SiteVersion) → List (ℕ × SiteVersion)
or_default site sites = elim (OrdMap.lookup site sites) [
  | none ↦ OrdMap.insert site no_receipts sites
  | some state ↦ sites
]

unfoldable pub note : ℕ → ℕ → Version → Version
note site seq v =
    if seq == 0
    then v
    else (let sites = or_default site v.sites in
        let state = state_of site v.sites in
        if leb seq state.contiguous
        then record v { sites = sites }
        else (let after = note_state state seq in
            record {
              sites = OrdMap.insert site after sites;
              sparse_count = v.sparse_count - length state.seen_after + length after.seen_after;
            }))

-- `Version::observed`, `Version::highest_seen` and `Version::contains`.
unfoldable pub observed : ℕ → Version → ℕ
observed site v = (state_of site v.sites).contiguous

abbrev last_or : ℕ → List ℕ → ℕ
last_or d [] = d
last_or d (x ∷ xs) = last_or x xs

unfoldable pub highest_seen : ℕ → Version → ℕ
highest_seen site v = elim (OrdMap.lookup site v.sites) [
  | none ↦ 0
  | some state ↦ last_or state.contiguous state.seen_after
]

-- Whether a site's summary represents the receipt `seq`.
abbrev pub represents : SiteVersion → ℕ → Bool
represents state seq = leb seq state.contiguous || OrdSet.contains seq state.seen_after

unfoldable pub contains : ℕ → ℕ → Version → Bool
contains site seq v =
    if seq == 0
    then false
    else elim (OrdMap.lookup site v.sites) [ none ↦ false | some state ↦ represents state seq ]

-- One site of `Version::merge`: the larger prefix, the union of what was seen above it, and then
-- the numbers that close up with the prefix.
unfoldable pub merge_state : SiteVersion → SiteVersion → SiteVersion
unfolding absorb
merge_state current incoming =
    let c = max current.contiguous incoming.contiguous in
    let l = OrdSet.retain_above c (OrdSet.extend current.seen_after incoming.seen_after) in
    absorb (length l) c l

unfoldable pub merge_site : ℕ → SiteVersion → Version → Version
merge_site site incoming v =
    let current = state_of site v.sites in
    let after = merge_state current incoming in
    record {
      sites = OrdMap.insert site after v.sites;
      sparse_count = v.sparse_count - length current.seen_after + length after.seen_after;
    }

unfoldable pub merge_sites : List (ℕ × SiteVersion) → Version → Version
merge_sites [] v = v
merge_sites ((site, incoming) ∷ rest) v = merge_sites rest (merge_site site incoming v)

unfoldable pub merge : Version → Version → Version
merge v other = merge_sites other.sites v

-- `Version::is_contiguous`.
all_prefixes : List (ℕ × SiteVersion) → Bool
all_prefixes [] = true
all_prefixes ((site, state) ∷ rest) = (length state.seen_after == 0) && all_prefixes rest

unfoldable pub is_contiguous : Version → Bool
unfolding all_prefixes
is_contiguous v = all_prefixes v.sites

unfoldable pub site_count : Version → ℕ
site_count v = length v.sites

-- `expected.seen_after.iter().all(|&sequence| self.contains(site, sequence))`.
unfoldable pub contains_all : Version → ℕ → List ℕ → Bool
contains_all v site [] = true
contains_all v site (q ∷ qs) = contains site q v && contains_all v site qs

unfoldable pub covers_site : Version → ℕ → SiteVersion → Bool
covers_site v site expected = elim (OrdMap.lookup site v.sites) [
  | none ↦ (expected.contiguous == 0) && (length expected.seen_after == 0)
  | some actual ↦
      leb expected.contiguous actual.contiguous && contains_all v site expected.seen_after
]

unfoldable pub covers_sites : Version → List (ℕ × SiteVersion) → Bool
covers_sites v [] = true
covers_sites v ((site, expected) ∷ rest) = covers_site v site expected && covers_sites v rest

-- `Version::covers`.
unfoldable pub covers : Version → Version → Bool
covers v other = covers_sites v other.sites

-- `Version::checkpoint_site` and `Version::restore_site`.
unfoldable pub checkpoint_site : ℕ → Version → Option SiteVersion
checkpoint_site site v = OrdMap.lookup site v.sites

unfoldable pub restored : ℕ → Option SiteVersion → List (ℕ × SiteVersion) → List (ℕ × SiteVersion)
restored site (some state) sites = OrdMap.insert site state sites
restored site none sites = OrdMap.remove site sites

unfoldable pub restore_site : ℕ → Option SiteVersion → Version → Version
restore_site site checkpoint v =
    let before = length (state_of site v.sites).seen_after in
    let sites = restored site checkpoint v.sites in
    record {
      sites = sites;
      sparse_count = v.sparse_count - before + length (state_of site sites).seen_after;
    }
