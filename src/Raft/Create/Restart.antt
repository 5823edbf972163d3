-- ===== src/Raft/Create/Restart.antt =====
-- A node that restarts goes on with the term, the vote and the log that it had.
use fraud_scoring_platform.Raft.Durable.{recalled, IsRestorable, IsDurable}
use fraud_scoring_platform.Raft.Node.{persistent, Config, Node}
use fraud_scoring_platform.Raft.Storage.{Storage}
use fraud_scoring_platform.Raft.Log.Shape.{index-last_entry, Follows, HasRoom, IsLog}
use fraud_scoring_platform.Raft.Types.{NodeId, PersistentState, follower, Entry}
use fraud_scoring_platform.Raft.Log.{entries, last_entry, RaftLog}
use fraud_scoring_platform.Raft.Create.{
  create_on, create_from, create_checked, ConfigError, restored, validate, with_defaults,
  restore_log, create, is_gapless,
}
use fraud_scoring_platform.Prelude.{
  ℕ, subst, Option, refl, inr, inc64-eq-add, none, arith, true, some, u64_mod, ◌<◌, ◌≡◌, List, [],
  ◌∷◌,
}

is_gapless_lem :
    (e : Entry) (es : List Entry)
    → Follows e es
    → (last_entry e es).index < u64_mod
    → is_gapless e es ≡ true
unfolding is_gapless
is_gapless_lem e [] h k = refl
is_gapless_lem e (x ∷ xs) h k = ground (
  arith,
  is_gapless_lem x xs h.2 k,
  inc64-eq-add e.index (omega (arith, index-last_entry x xs h.2)),
)

-- A log without gaps is what a restart reads.
restore_log_lem : (l : RaftLog) → IsLog l → HasRoom l → restore_log (entries l) ≡ some l
unfolding restore_log
restore_log_lem l good room = ground (arith, is_gapless_lem l.first l.rest good (omega arith))

-- After a crash at any time when the disk is up to date, a node with a well-formed log whose next
-- index is a uint64, created anew over the same disk with a valid configuration, is a follower with
-- the term, the vote and the log that it had, and its disk is up to date.
pub create-restart :
    {D : Type 0} (s : Storage D) (n : Node D) (c : Config D)
    → IsDurable s n
    → IsLog n.log
    → HasRoom n.log
    → c.storage ≡ some (s, n.disk)
    → validate (with_defaults c) ≡ none
    → (m : Node D) × (create c ≡ inr m)
      × (persistent m ≡ persistent n)
      × (m.role ≡ follower)
      × IsDurable s m
unfolding create with_defaults
create-restart s n c h good room at valid = (
  restored (with_defaults c) s n.disk (persistent n) n.log,
  ground (arith, restore_log_lem n.log good room, h.synced),
  refl,
  refl,
  record { same = refl; synced = h.synced },
)

create_checked-storage :
    {D : Type 0} (s : Storage D) (d : D) (c : Config D) (e : Option ConfigError) (m : Node D)
    → c.storage ≡ some (s, d)
    → create_checked c e ≡ inr m
    → create_from c s d (s.load d) ≡ inr m
create_checked-storage s d c none m h k = subst (λ o. create_on c o ≡ inr m) h k
create_checked-storage s d c (some e) m h k = cc

create_loaded-inv :
    {D : Type 0} (s : Storage D) (d : D) (n m : Node D) (c : Config D) (t : ℕ) (v : NodeId)
    → (es : List Entry)
    → recalled (some (record { current_term = t; voted_for = v; entries = es }))
      ≡ some (persistent n)
    → create_from c s d (some (record { current_term = t; voted_for = v; entries = es })) ≡ inr m
    → m ≡ restored c s d (persistent n) n.log
unfolding restore_log
create_loaded-inv s d n m c t v [] h k = ground (arith, h, k)
create_loaded-inv s d n m c t v (e ∷ es) h k = ground (arith, h, k)

-- What a restart makes of the disk is what it recalls from it.
create_from-inv :
    {D : Type 0} (s : Storage D) (d : D) (n m : Node D) (c : Config D) (o : Option PersistentState)
    → recalled o ≡ some (persistent n)
    → create_from c s d o ≡ inr m
    → m ≡ restored c s d (persistent n) n.log
create_from-inv s d n m c none h k = cc h
create_from-inv s d n m c (some p) h k =
    create_loaded-inv s d n m c p.current_term p.voted_for p.entries h k

-- Whatever node `create` makes over the disk of a node that a restart would bring back, it is that
-- node restarted.
pub create-inv :
    {D : Type 0} (s : Storage D) (n m : Node D) (c : Config D)
    → IsRestorable s n
    → c.storage ≡ some (s, n.disk)
    → create c ≡ inr m
    → m ≡ restored (with_defaults c) s n.disk (persistent n) n.log
unfolding create with_defaults
create-inv s n m c h at made =
    let g = with_defaults c in
    create_from-inv s n.disk n m g (s.load n.disk) h.synced
      (create_checked-storage s n.disk g (validate g) m at made)
