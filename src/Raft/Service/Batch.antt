-- ===== src/Raft/Service/Batch.antt =====
-- `applier` of raft/apply.go: one batch, from the committed entries to the last applied index.
use fraud_scoring_platform.Raft.Log.Lookup.{view-inv, view-eq-some, entries_from_lem}
use fraud_scoring_platform.Raft.Log.{last_index, snapshot_index, entries_from}
use fraud_scoring_platform.Raft.Log.Shape.{get_elem?-last_entry, view, HasRoom, IsLog}
use fraud_scoring_platform.Raft.Types.{ApplyMsg, ok, Entry}
use fraud_scoring_platform.Raft.Service.{apply_msg, messages, next_batch, limit_of, finish_batch}
use fraud_scoring_platform.Raft.Node.{Node}
use fraud_scoring_platform.Prelude.{
  refl, zero, suc, subst, false, ltb, if◌then◌else◌, sub64-eq-sub, inc64-eq-add, none, [], ◌∙◌, sym,
  ap, inr, Option, ◌∷◌, get_elem?-eq-none, dec_lt, ◌^◌, some, sub64, ◌≡◌, ◌-◌, ◌≤◌, inc64, ◌+◌,
  get_elem?, length, ℕ, ◌<◌, List, arith,
}

-- What the applier relies on: a log without gaps that holds all that is committed and not yet
-- applied, by indexes that an int can count.
pub record IsApplier {D : Type 0} (n : Node D) : Type 0 where
  pub good : IsLog n.log
  pub room : HasRoom n.log
  pub above : snapshot_index n.log ≤ n.last_applied
  pub within : n.commit_index ≤ last_index n.log
  pub small : n.commit_index < 2 ^ 63

-- The entries behind the last applied one, up to the commit index, and no others.
pub record IsPending {D : Type 0} (n : Node D) (es : List Entry) : Type 0 where
  pub count : length es + n.last_applied ≡ n.commit_index
  pub entry :
      (d : ℕ)
      → get_elem? es d ≡ (if ltb d (length es) then view n.log (n.last_applied + 1 + d) else none)

get_elem?-length : (es : List Entry) (d : ℕ) (x : Entry) → get_elem? es d ≡ some x → d < length es
get_elem?-length es d x h = elim (dec_lt d (length es)) [
  | yes lt ↦ lt
  | no ge ↦ absurd (cc (get_elem?-eq-none d es (omega arith), h))
]

only_inside :
    (es : List Entry) (d : ℕ) (o : Option Entry)
    → (d < length es → get_elem? es d ≡ o)
    → get_elem? es d ≡ (if ltb d (length es) then o else none)
only_inside es d o h = elim (dec_lt d (length es)) [
  | yes lt ↦ ground (arith, h lt)
  | no ge ↦ ground (arith, get_elem?-eq-none d es (omega arith))
]

finish_batch-last :
    {D : Type 0} (m : Node D) (es : List Entry) (x : Entry)
    → 0 < length es
    → get_elem? es (length es - 1) ≡ some x
    → finish_batch es m ≡ (ok tt, record m { last_applied = x.index })
unfolding finish_batch
finish_batch-last m [] x lt h = absurd (omega arith)
finish_batch-last m (e ∷ es) x lt h =
    ap (λ o. (ok tt, record m { last_applied = index_of o }))
      (sym (get_elem?-last_entry e es) ∙ ap (get_elem? (e ∷ es)) (omega arith) ∙ h)
  where
    index_of : Option Entry → ℕ
    index_of none = 0
    index_of (some y) = y.index

limit_of-eq-id : (k : ℕ) → k < 2 ^ 63 → limit_of k ≡ k
limit_of-eq-id k h = ground arith

batch_args :
    (lo hi : ℕ) → lo < hi → hi < 2 ^ 63 → (inc64 lo ≡ lo + 1) × (limit_of (sub64 hi lo) ≡ hi - lo)
batch_args lo hi lt small = (
  inc64-eq-add lo (omega arith),
  ap limit_of (sub64-eq-sub hi lo (omega arith) (omega arith))
      ∙ limit_of-eq-id (hi - lo) (omega arith),
)

module _ {D : Type 0} (n : Node D) (h : IsApplier n) where
  batch-entries :
      n.last_applied < n.commit_index
      → (es : List Entry) × (entries_from n.log
            (inc64 n.last_applied)
            (limit_of (sub64 n.commit_index n.last_applied))
          ≡ ok es)
        × IsPending n es
        × ((m : Node D) → finish_batch es m ≡ (ok tt, record m { last_applied = n.commit_index }))
  batch-entries lt =
      let k = n.commit_index - n.last_applied in
      let (es, got, views, most) =
        entries_from_lem n.log h.good h.room (n.last_applied + 1) k (omega (arith, h.above)) in
      let args = batch_args n.last_applied n.commit_index lt h.small in
      let limit = limit_of (sub64 n.commit_index n.last_applied) in
      let top = k - 1 in
      let (x, seen, _, index, _) =
        view-eq-some n.log h.good n.commit_index (omega (arith, h.above)) h.within in
      let last : get_elem? es top ≡ some x =
        views top (inr (omega arith)) ∙ ap (view n.log) (omega arith) ∙ seen in
      let count : length es ≡ k =
        omega (arith, get_elem?-length es top x last, most (omega arith)) in
      (
        es,
        ap (λ i. entries_from n.log i limit) args.0
            ∙ ap (entries_from n.log (n.last_applied + 1)) args.1
            ∙ got,
        record {
          count = omega (arith, count);
          entry = λ d. only_inside es d _ (λ le. views d (inr (omega (arith, le, count))));
        },
        λ m.
            finish_batch-last m es x (omega (arith, count))
              (ap (get_elem? es) (omega (arith, count)) ∙ last)
            ∙ ap (λ i. (ok tt, record m { last_applied = i })) index,
      )

  -- Take a node that is not stopped, whose commit index is an int and exceeds the last applied one,
  -- and whose log has no gaps, does not fill the range of uint64, holds the committed entries and
  -- is not compacted beyond what is applied. The applier takes the entries behind the last applied
  -- one up to the commit index, each once and in order, and no others; it does not panic and leaves
  -- the node as it is. When it is done with them, it does not panic either, and sets the last
  -- applied index of the node, whatever has become of it since, to that commit index and nothing
  -- else.
  pub next_batch_lem :
      n.stopped ≡ false
      → n.last_applied < n.commit_index
      → (es : List Entry) × (next_batch n ≡ (ok (some es), n))
        × IsPending n es
        × ((m : Node D) → finish_batch es m ≡ (ok tt, record m { last_applied = n.commit_index }))
  unfolding next_batch
  next_batch_lem live lt =
      let (es, got, taken, finished) = batch-entries lt in
      (es, ground (arith, live, got), taken, finished)

-- A message of a batch carries the entry that the log has at its index.
pub record IsDelivered {D : Type 0} (n : Node D) (x : ApplyMsg) : Type 0 where
  pub entry : Entry
  pub seen : view n.log x.index ≡ some entry
  pub made : x ≡ apply_msg entry
  pub upto : x.index ≤ n.commit_index

messages-inv :
    (es : List Entry) (p : ℕ) (x : ApplyMsg)
    → get_elem? (messages es) p ≡ some x
    → (e : Entry) × (get_elem? es p ≡ some e) × (x ≡ apply_msg e)
messages-inv [] p x h = absurd (cc h)
messages-inv (e ∷ es) zero x h = (e, refl, cc h)
messages-inv (e ∷ es) (suc p) x h = messages-inv es p x h

module _ {D : Type 0} (n m : Node D) (h : IsApplier n) (es : List Entry)
    (taken : next_batch n ≡ (ok (some es), m)) where
  next_batch-live : (n.stopped ≡ false) × (n.last_applied < n.commit_index)
  unfolding next_batch
  next_batch-live = ground (arith, taken)

  next_batch-IsPending : IsPending n es
  next_batch-IsPending =
      let (fs, got, pending, _) = next_batch_lem n h next_batch-live.0 next_batch-live.1 in
      subst (IsPending n) (cc (got, taken)) pending

  pub next_batch-IsDelivered :
      (p : ℕ) (x : ApplyMsg) → get_elem? (messages es) p ≡ some x → IsDelivered n x
  next_batch-IsDelivered p x at =
      let (e, here, made) = messages-inv es p x at in
      let b = next_batch-IsPending in
      let lt = get_elem?-length es p e here in
      let seen : view n.log (n.last_applied + 1 + p) ≡ some e =
        ground (arith, b.entry p, here, lt) in
      let (_, _, _, index, _) = view-inv n.log h.good (n.last_applied + 1 + p) e seen in
      let at_index : n.last_applied + 1 + p ≡ x.index = sym (ap (λ y. y.index) made ∙ index) in
      record {
        entry = e;
        seen = subst (λ i. view n.log i ≡ some e) at_index seen;
        made = made;
        upto = omega (arith, at_index, b.count, lt);
      }
