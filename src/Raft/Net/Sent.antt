-- ===== src/Raft/Net/Sent.antt =====
-- The request that `replicateTo` of raft/replication.go sends.
use fraud_scoring_platform.Raft.Replication.Accept.{prev_entry}
use fraud_scoring_platform.Raft.Net.Matched.{RequestWell}
use fraud_scoring_platform.Raft.Net.{Past}
use fraud_scoring_platform.Raft.Log.{entries, snapshot_index, RaftLog, last_index, entries_from}
use fraud_scoring_platform.Raft.Log.Lookup.{
  view-eq-some, view-eq-none, entries_from-eq-batch, entries_from-eq-nil, batch, entries_from_lem,
  view-inv, log_term_lem, term_of,
}
use fraud_scoring_platform.Prelude.Int.{pos_part}
use fraud_scoring_platform.Raft.Replication.{prepare_append}
use fraud_scoring_platform.Raft.Log.Shape.{
  Follows-same, view_in-eq-get_elem?, view_in, Follows-drop, Follows-take, Follows, view, HasRoom,
}
use fraud_scoring_platform.Raft.Net.Origins.{Led, IsWhole}
use fraud_scoring_platform.Raft.Types.{Entry, leader, ok, AppendEntriesArgs, NodeId}
use fraud_scoring_platform.Raft.Node.{Node}
use fraud_scoring_platform.Prelude.{
  inl, inc64-eq-add, inr, ◌∷◌, sym, get_elem?-inside, ◌≤◌, suc, ◌-◌, drop, subst, ◌∙◌, ap,
  get_elem?, length, ◌+◌, dec_lt, [], sub64, List, inc64, u64_mod, ◌<◌, some, ◌≡◌, ℕ, arith,
}

sub64-bound : (a : ℕ) → sub64 a 1 < u64_mod
unfolding sub64
sub64-bound a = omega arith

-- Behind the end of the log there is nothing to send.
entries_from-past :
    (l : RaftLog) (prev limit : ℕ) (es : List Entry)
    → IsWhole l
    → prev < u64_mod
    → last_index l < prev
    → entries_from l (inc64 prev) limit ≡ ok es
    → es ≡ []
unfolding entries_from inc64
entries_from-past l prev limit es w bound past got = ground (arith, w.rooted)

Follows-batch :
    (limit : ℕ) (x : Entry) (es : List Entry) → Follows x es → Follows x (batch limit es)
Follows-batch limit x es h = ground (arith, Follows-take limit x es h)

entries_from-Follows :
    (l : RaftLog) (prev limit : ℕ) (x : Entry) (es : List Entry)
    → IsWhole l
    → HasRoom l
    → view l prev ≡ some x
    → entries_from l (prev + 1) limit ≡ ok es
    → Follows x es
entries_from-Follows l prev limit x es w room seen got =
    let (above, inside, found, at, _) = view-inv l w.good prev x seen in
    let root : snapshot_index l ≡ 0 = ap (λ (e : Entry). e.index) w.rooted in
    elim (dec_lt (last_index l) (prev + 1)) [
      | yes past ↦
          let none_left =
            entries_from-eq-nil l w.good room (prev + 1) limit (omega (arith, above)) past in
          let same : [] ≡ es = ground (arith, none_left, got) in subst (Follows x) same tt
      | no more ↦
          let some_left =
            entries_from-eq-batch l w.good room (prev + 1) limit (omega (arith, above))
              (omega arith) in
          let same : batch limit (drop (prev - snapshot_index l) l.rest) ≡ es =
            ap (λ k. batch limit (drop k (entries l))) {x = suc (prev - snapshot_index l)}
              {y = prev + 1 - snapshot_index l} (omega (arith, above))
            ∙ ground (arith, some_left, got) in
          subst (Follows x) same (
            Follows-batch limit x (drop (prev - snapshot_index l) l.rest)
              (Follows-drop (prev - snapshot_index l) l.first x l.rest w.good found))
    ]

-- What stands behind the entry at `prev`, in order.
entries_from-behind :
    (l : RaftLog) (prev limit : ℕ) (x : Entry) (es : List Entry)
    → IsWhole l
    → HasRoom l
    → view l prev ≡ some x
    → entries_from l (prev + 1) limit ≡ ok es
    → Follows x es × ((d : ℕ) → d < length es → get_elem? es d ≡ view l (prev + 1 + d))
entries_from-behind l prev limit x es w room seen got =
    let (above, inside, found, at, _) = view-inv l w.good prev x seen in
    let (fs, got_fs, views, most) =
      entries_from_lem l w.good room (prev + 1) limit (omega (arith, above)) in
    let same : es ≡ fs = ground (arith, got, got_fs) in
    (
      entries_from-Follows l prev limit x es w room seen got,
      λ d lt. ap (λ ys. get_elem? ys d) same ∙ views d (ground (arith, most, lt, same)),
    )

view_in-skip :
    (k : ℕ) (x : Entry) (es : List Entry) → x.index < k → view_in k es ≡ view_in k (x ∷ es)
unfolding view_in
view_in-skip k x es lt = ground arith

module _ (l : RaftLog) (w : IsWhole l) (prev : ℕ) (x : Entry) (es : List Entry)
    (seen : view l prev ≡ some x) (follow : Follows x es)
    (views : (d : ℕ) → d < length es → get_elem? es d ≡ view l (prev + 1 + d)) where
  sent-inside : prev + length es ≤ last_index l
  sent-inside =
      let (_, hi, _, _, _) = view-inv l w.good prev x seen in
      elim (dec_lt 0 (length es)) [
        | no empty ↦ omega arith
        | yes some_left ↦
            let d = length es - 1 in
            let (y, at) = get_elem?-inside d es (omega arith) in
            let (_, last, _, _, _) =
              view-inv l w.good (prev + 1 + d) y (sym (views d (omega arith)) ∙ at) in
            omega arith
      ]

  sent-same : (j : ℕ) → prev < j → j ≤ prev + length es → view_in j es ≡ view l j
  sent-same j lo hi =
      let (_, _, _, at, _) = view-inv l w.good prev x seen in
      let d = j - prev - 1 in
      view_in-skip j x es (omega (arith, at))
      ∙ view_in-eq-get_elem? (suc d) j x es follow (omega (arith, at))
      ∙ views d (omega arith)
      ∙ ap (view l) (omega arith)

module _ {D : Type 0} (n : Node D) (peer : NodeId) (t : ℕ) (args : AppendEntriesArgs)
    (w : IsWhole n.log) (room : HasRoom n.log)
    (sent : (prepare_append peer t n).0 ≡ ok (some args)) where
  abbrev limit : ℕ
  limit = pos_part n.cfg.max_entries_per_append

  -- A leader sends it, in its term, and stays as it is.
  pub prepare_append_lem :
      (n.role ≡ leader)
      × (n.current_term ≡ args.term)
      × (n.id ≡ args.leader_id)
      × (n.commit_index ≡ args.leader_commit)
      × (args.prev_log_index < u64_mod)
      × (args.prev_log_term ≡ (term_of (view n.log args.prev_log_index)).0)
      × (entries_from n.log (inc64 args.prev_log_index) limit ≡ ok args.entries)
  unfolding prepare_append
  prepare_append_lem = ground (
    arith,
    sent,
    log_term_lem n.log w.good room (sub64 (n.next_index peer) 1),
    sub64-bound (n.next_index peer),
  )

  abbrev prev : ℕ
  prev = args.prev_log_index

  -- The entries go on behind one that the log has, or there are none.
  no_entries : last_index n.log < prev → args.entries ≡ []
  no_entries past =
      let (_, _, _, _, bound, _, got) = prepare_append_lem in
      entries_from-past n.log prev limit args.entries w bound past got

  pub sent-RequestWell : (past : List (Past D)) → Led past args.leader_id n → RequestWell past args
  sent-RequestWell past led =
      let (role, term, name, commit, bound, prev_term, got) = prepare_append_lem in
      elim (dec_lt (last_index n.log) prev) [
        | yes beyond ↦ record {
          node = n;
          led = led;
          term = term;
          commit = commit;
          request = record {
            follow = subst (Follows (prev_entry args)) (sym (no_entries beyond)) tt;
            fits = omega (arith, bound, ap length (no_entries beyond));
          };
          source = inr (
            no_entries beyond,
            omega (arith, beyond),
            prev_term ∙ ap (λ o. (term_of o).0) (view-eq-none n.log w.good prev beyond),
          );
        }
        | no inside ↦
            let root : snapshot_index n.log ≡ 0 = ap (λ (e : Entry). e.index) w.rooted in
            let (x, seen, _, at, _) = view-eq-some n.log w.good prev (omega arith) (omega arith) in
            let got_next : entries_from n.log (prev + 1) limit ≡ ok args.entries =
              subst (λ k. entries_from n.log k limit ≡ ok args.entries)
                (inc64-eq-add prev (omega arith)) got in
            let (follow, views) =
              entries_from-behind n.log prev limit x args.entries w room seen got_next in
            let own : x.term ≡ args.prev_log_term =
              sym (prev_term ∙ ap (λ o. (term_of o).0) seen) in
            let inside = sent-inside n.log w prev x args.entries seen follow views in
            record {
              node = n;
              led = led;
              term = term;
              commit = commit;
              request = record {
                follow = Follows-same x (prev_entry args) args.entries at own follow;
                fits = omega (arith, inside);
              };
              source = inl (record {
                inside = inside;
                known = cc (seen, own);
                same = sent-same n.log w prev x args.entries seen follow views;
              });
            }
      ]
