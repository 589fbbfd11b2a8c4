-- ===== src/Probes/FrameEvents/Votes/Majority.antt =====
-- What a vote over a full window commits.
use vms_engine.Common.Map.{
  Map, find, insert, find-insert, find-In, In-find, IsDistinct, insert-IsDistinct,
}
use vms_engine.Common.{
  ℕ, suc, ◌+◌, ◌*◌, ◌/◌, ◌≤◌, ◌<◌, ◌≡◌, refl, ap, ◌∙◌, true, false, some, List, [], ◌∷◌, Text,
  text_eq, text_beq_iff, nat_eq, ◌==◌, length, In, All, All-of_In, if◌then◌else◌, Bool-cases,
  Option-cases, inl, inr, pos, ltb_ℤ, int_eq, arith, ◌↔◌,
}
use vms_engine.Probes.FrameEvents.{LabelVoteSample, LabelVoteState}
use vms_engine.Probes.FrameEvents.Votes.{
  Tally, Winner, Iterate, count_of, first_winner, tallied, tally_from, challenge, pick_winner,
  labels_of, commit_winner, commit_majority,
}

-- How many of the samples have the signature.
unfoldable pub occurrences : Text → List LabelVoteSample → ℕ
occurrences signature [] = 0
occurrences signature (s ∷ ss) =
    if s.signature == signature then suc (occurrences signature ss) else occurrences signature ss

-- The labels of the last sample that has the signature, or else `labels`.
unfoldable pub latest_labels : Text → List Text → List LabelVoteSample → List Text
latest_labels signature labels [] = labels
latest_labels signature labels (s ∷ ss) =
    latest_labels signature (if s.signature == signature then s.labels else labels) ss

count-tally_from :
    (signature : Text) (index : ℕ) (ss : List LabelVoteSample) (counts : Map Text Tally)
    → count_of (find signature (tally_from index ss counts))
      ≡ count_of (find signature counts) + occurrences signature ss
unfolding tally_from tallied occurrences
count-tally_from signature index [] counts = omega arith
count-tally_from signature index (s ∷ ss) counts =
    let new = tallied index s (find s.signature counts) in
    ground (
      arith,
      count-tally_from signature (index + 1) ss (insert s.signature new counts),
      text_beq_iff s.signature signature,
      find-insert s.signature signature new counts,
    )

labels-tally_from :
    (signature : Text) (index : ℕ) (ss : List LabelVoteSample) (counts : Map Text Tally)
    → labels_of (find signature (tally_from index ss counts))
      ≡ latest_labels signature (labels_of (find signature counts)) ss
unfolding tally_from tallied latest_labels
labels-tally_from signature index [] counts = refl
labels-tally_from signature index (s ∷ ss) counts =
    let new = tallied index s (find s.signature counts) in
    labels-tally_from signature (index + 1) ss (insert s.signature new counts)
    ∙ ap (λ ls. latest_labels signature ls ss)
        (ground (arith, find-insert s.signature signature new counts))

-- Two signatures share the samples.
occurrences_share :
    (a b : Text) (ss : List LabelVoteSample)
    → (a == b) ≡ false
    → occurrences a ss + occurrences b ss ≤ length ss
unfolding occurrences
occurrences_share a b [] h = omega arith
occurrences_share a b (s ∷ ss) h = ground (
  arith,
  occurrences_share a b ss,
  text_beq_iff s.signature a,
  text_beq_iff s.signature b,
  text_beq_iff a b,
)

-- The winner so far is `signature`, with all of its votes.
record IsLed (signature : Text) (count : ℕ) (w : Winner) : Type 0 where
  named : w.signature ≡ signature
  counted : w.count ≡ pos count

-- All but `signature` have fewer votes than it.
abbrev IsAhead : Text → ℕ → Text × Tally → Type 0
IsAhead signature count e =
    ((e.0 == signature) ≡ true → e.1.count ≡ count)
    × ((e.0 == signature) ≡ false → e.1.count < count)

challenge-IsLed :
    (signature s : Text) (count : ℕ) (w : Winner) (t : Tally)
    → IsAhead signature count (s, t)
    → IsLed signature count w
    → IsLed signature count (challenge w s t)
unfolding challenge
challenge-IsLed signature s count w t ahead led = record {
  named = ground (arith, ahead.0, ahead.1, led.named, led.counted, text_beq_iff s signature);
  counted = ground (arith, ahead.0, ahead.1, led.named, led.counted, text_beq_iff s signature);
}

pick_winner-IsLed :
    (signature : Text) (count : ℕ) (w : Winner) (entries : List (Text × Tally))
    → All (IsAhead signature count) entries
    → IsLed signature count w
    → IsLed signature count (pick_winner w entries)
unfolding pick_winner
pick_winner-IsLed signature count w [] ahead led = led
pick_winner-IsLed signature count w ((s, t) ∷ entries) ahead led =
    pick_winner-IsLed signature count (challenge w s t) entries ahead.1
      (challenge-IsLed signature s count w t ahead.0 led)

-- Whoever has fewer votes loses to it.
pick_winner_ahead :
    (signature : Text) (count : ℕ) (w : Winner) (t : Tally) (entries : List (Text × Tally))
    → All (IsAhead signature count) entries
    → In (signature, t) entries
    → ltb_ℤ w.count (pos count) ≡ true
    → IsLed signature count (pick_winner w entries)
unfolding pick_winner challenge
pick_winner_ahead signature count w t [] ahead here low = elim here [ ]
pick_winner_ahead signature count w t ((s, u) ∷ entries) ahead here low =
    elim (Bool-cases (s == signature)) [
      | inl q ↦ pick_winner-IsLed signature count (challenge w s u) entries ahead.1 (record {
        named = ground (arith, ahead.0.0 q, low, text_beq_iff s signature);
        counted = ground (arith, ahead.0.0 q, low);
      })
      | inr q ↦
          pick_winner_ahead signature count (challenge w s u) t entries ahead.1
            (elim here [
              | inl e ↦
                  let key : signature ≡ s = ap (λ (x : Text × Tally). x.0) e in
                  absurd (ground (arith, text_beq_iff s signature))
              | inr m ↦ m
            ])
            (ground (arith, ahead.0.1 q, low))
    ]

-- With few votes for all, the winner has few.
pick_winner_low :
    (bound : ℕ) (w : Winner) (entries : List (Text × Tally))
    → All (λ (e : Text × Tally). e.1.count ≤ bound) entries
    → ltb_ℤ (pos bound) w.count ≡ false
    → ltb_ℤ (pos bound) (pick_winner w entries).count ≡ false
unfolding pick_winner challenge
pick_winner_low bound w [] few low = low
pick_winner_low bound w ((s, u) ∷ entries) few low =
    pick_winner_low bound (challenge w s u) entries few.1 (ground (arith, few.0, low))

tally_from-IsDistinct :
    (index : ℕ) (ss : List LabelVoteSample) (counts : Map Text Tally)
    → IsDistinct counts
    → IsDistinct (tally_from index ss counts)
unfolding tally_from
tally_from-IsDistinct index [] counts d = d
tally_from-IsDistinct index (s ∷ ss) counts d =
    tally_from-IsDistinct (index + 1) ss _ (insert-IsDistinct s.signature _ counts d)

-- What an iteration of an unordered map visits: its entries, in whatever order.
abbrev pub IsIteration : Iterate → Type 0
IsIteration iterate =
    (counts : Map Text Tally) (e : Text × Tally) → In e (iterate counts) ↔ In e counts

module _ (iterate : Iterate) (visits : IsIteration iterate) (samples : List LabelVoteSample) where
  abbrev counts : Map Text Tally
  counts = tally_from 0 samples []

  -- The number in an entry is that of the samples.
  visited-count : (e : Text × Tally) → In e (iterate counts) → e.1.count ≡ occurrences e.0 samples
  unfolding find
  visited-count (s, t) m =
      let there : In (s, t) counts = (visits counts (s, t)).0 m in
      let found : find s counts ≡ some t =
        In-find s t counts (tally_from-IsDistinct 0 samples [] tt) there in
      let counted : count_of (find s counts) ≡ 0 + occurrences s samples =
        count-tally_from s 0 samples [] in
      ground arith

  visited_leader :
      (signature : Text)
      → 1 ≤ occurrences signature samples
      → (t : Tally) × In (signature, t) (iterate counts)
  unfolding find
  visited_leader signature some_votes =
      let counted : count_of (find signature counts) ≡ 0 + occurrences signature samples =
        count-tally_from signature 0 samples [] in
      elim (Option-cases (find signature counts)) [
        | inl e ↦ absurd (ground (arith, ap count_of e))
        | inr (t, e) ↦ (t, (visits counts (signature, t)).1 (find-In signature t counts e))
      ]

  winner-IsLed :
      (signature : Text) (w : Winner)
      → length samples < 2 * occurrences signature samples
      → ltb_ℤ w.count (pos 0) ≡ true
      → IsLed signature (occurrences signature samples) (pick_winner w (iterate counts))
  winner-IsLed signature w most low =
      let leader = visited_leader signature (omega arith) in
      let n = occurrences signature samples in
      pick_winner_ahead signature n w leader.0 (iterate counts)
        (All-of_In (IsAhead signature n) (iterate counts) (λ e m.
          let counted = visited-count e m in
          (
            λ q. ground (arith, text_beq_iff e.0 signature),
            λ q. let share = occurrences_share e.0 signature samples q in omega arith,
          )))
        leader.1 (ground arith)

commit_winner-IsLed :
    (v : LabelVoteState) (counts : Map Text Tally) (w : Winner) (signature : Text) (n : ℕ)
    → IsLed signature n w
    → length v.samples < 2 * n
    → commit_winner v counts w ≡ record v {
      committed_signature = signature;
      committed_labels = labels_of (find signature counts);
    }
unfolding commit_winner
commit_winner-IsLed v counts w signature n led most =
    let many : ltb_ℤ (pos (length v.samples / 2)) (pos n) ≡ true = ground arith in
    rw (led.counted, led.named, many) refl

-- If more than half of the samples have one signature, the vote commits it with the labels of the
-- last such sample, in whatever order the counts are visited.
pub commit_majority_lem :
    (iterate : Iterate) (v : LabelVoteState) (signature : Text)
    → IsIteration iterate
    → length v.samples < 2 * occurrences signature v.samples
    → commit_majority iterate v ≡ record v {
      committed_signature = signature;
      committed_labels = latest_labels signature [] v.samples;
    }
unfolding commit_majority find
commit_majority_lem iterate v signature visits most =
    let led = winner-IsLed iterate visits v.samples signature (first_winner v) most refl in
    let labels = labels-tally_from signature 0 v.samples [] in
    commit_winner-IsLed v (tally_from 0 v.samples []) _ signature _ led most
    ∙ ap (λ (ls : List Text). record v { committed_signature = signature; committed_labels = ls })
        labels

-- If no signature is that of more than half of the samples, what is committed stays.
pub commit_majority_none :
    (iterate : Iterate) (v : LabelVoteState)
    → IsIteration iterate
    → ((s : Text) → 2 * occurrences s v.samples ≤ length v.samples)
    → commit_majority iterate v ≡ v
unfolding commit_majority commit_winner
commit_majority_none iterate v visits few =
    let bound = length v.samples / 2 in
    let entries = iterate (tally_from 0 v.samples []) in
    let low =
      pick_winner_low bound (first_winner v) entries
        (All-of_In (λ (e : Text × Tally). e.1.count ≤ bound) entries
          (λ e m.
            let counted = visited-count iterate visits v.samples e m in
            let half = few e.0 in omega arith))
        (ground arith) in
    rw low refl
