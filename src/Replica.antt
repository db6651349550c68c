-- ===== src/Replica.antt =====
-- src/replica.rs: the state of a replica.
pub mod Pending
pub mod Drain
pub mod Receive
pub mod Local
pub mod Snapshot
use esbt_web.Base.{ℕ, ◌≡◌, refl, Option, none, some, List, [], map}
use esbt_web.Weight.{Weight}
use esbt_web.Op.{Op}
use esbt_web.Clock
use esbt_web.Clock.{Version, SiteVersion}
use esbt_web.Config.{ReplicaConfig}
use esbt_web.Allocator
use esbt_web.Allocator.{Allocator}
use esbt_web.Allocator.Adaptive.{AdaptiveDmaxConfig}
use esbt_web.DocTree
use esbt_web.DocTree.{DocTree}

-- `LocalInsertRun`.
pub record LocalInsertRun : Type 0 where
  pub root : Weight
  pub last : Weight
  pub last_counter : ℕ
  pub next_component : ℕ

-- `PendingQueue`: the operations that wait, by their weight, and their number.
pub record PendingQueue : Type 0 where
  pub by_weight : List (Weight × List Op)
  pub len : ℕ

-- `Replica`. The maps and sets are lists of entries; a `u128` is a number below 2^128.
pub record Replica : Type 0 where
  pub site : ℕ
  pub alloc : Allocator
  pub doc : DocTree
  pub pending : PendingQueue
  pub delete_log : List (Weight × ℕ)
  pub counter_map : List (Weight × ℕ)
  pub counter : ℕ
  pub insertion_version : Version
  pub version : Version
  pub log : List ((ℕ × ℕ) × Op)
  pub local_seq : ℕ
  pub local_insert_run : Option LocalInsertRun
  pub visible_revision : ℕ

abbrev pub nothing_pending : PendingQueue
nothing_pending = record { by_weight = []; len = 0 }

abbrev pub adapting : Option AdaptiveDmaxConfig → Allocator → Allocator
adapting none a = a
adapting (some config) a = Allocator.enable_adaptive_dmax config a

-- `Replica::new`, of a site other than 0, which it asserts.
unfoldable pub new : ℕ → ReplicaConfig → Replica
new site cfg =
    let alloc = Allocator.new cfg.dmax cfg.base cfg.depth in
    record {
      site = site;
      alloc = adapting cfg.adaptive_dmax (record alloc { strategy = cfg.strategy });
      doc = DocTree.leaf;
      pending = nothing_pending;
      delete_log = [];
      counter_map = [];
      counter = 0;
      insertion_version = Clock.empty;
      version = Clock.empty;
      log = [];
      local_seq = 0;
      local_insert_run = none;
      visible_revision = 0;
    }

-- `Replica::len`, and the units of `Replica::text`.
abbrev pub len : Replica → ℕ
len r = DocTree.size r.doc

abbrev pub text : Replica → List ℕ
text r = DocTree.units r.doc
