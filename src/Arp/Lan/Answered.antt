-- ===== src/Arp/Lan/Answered.antt =====
-- The answers of arp.c to the tour processes, at all times.
use cse.Base.{
  ℕ, ◌≡◌, inl, subst, List, [], ◌∷◌, ◌++◌, some, get_elem?, All, All-append, All-get_elem?, ◌==◌,
  Bool-cases, inr, arith, get_elem?-replicate, ap,
}
use cse.Arp.{Arp, CacheEntry, Call, start}
use cse.Arp.Lan.{
  Nodes, Ask, Answer, Lan, answers_of, ask_of, after_event, Step, frame_step, connection_step,
  Reach, begin, and_then, begun,
}
use cse.Arp.Lan.Truth.{FrameTrue, Inv, Step-Inv, begun-Inv}
use cse.Arp.Lan.Answers.{
  AnswerTrue, CacheWaits, ResultWaits, Waits-more, AnswerTrue-more, on_frame-Waits,
  on_connection-Waits,
}

record AllAnswered (n : Nodes) (lan : Lan) : Type 0 where
  pub truth : Inv n lan
  pub waits : (u : ℕ) → CacheWaits lan.asked u (lan.arp u).cache
  pub answers : All (AnswerTrue n lan.asked) lan.answers

event-AllAnswered :
    (n : Nodes) {lan : Lan} (u : ℕ) (asks : List Ask) (r : Arp × List Call)
    → Inv n (after_event lan u asks r)
    → AllAnswered n lan
    → ResultWaits n (asks ++ lan.asked) u r
    → AllAnswered n (after_event lan u asks r)
event-AllAnswered n {lan} u asks r truth v res = record {
  truth = truth;
  waits = λ w. elim (Bool-cases (w == u)) [
    | inl p ↦
        let e : u ≡ w = ground arith in
        rw p (subst (λ x. CacheWaits (asks ++ lan.asked) x r.0.cache) e res.0)
    | inr p ↦ rw p (λ i e there. Waits-more e asks (v.waits w i e there))
  ];
  answers =
      All-append (AnswerTrue n (asks ++ lan.asked)) (answers_of u r.1) lan.answers res.1
        (AnswerTrue-more n lan.asked asks lan.answers v.answers);
}

Step-AllAnswered :
    (n : Nodes) {lan last : Lan} → Step lan last → AllAnswered n lan → AllAnswered n last
Step-AllAnswered n {lan} (frame_step u j f r there ran) v =
    event-AllAnswered n u [] r (Step-Inv n (frame_step u j f r there ran) v.truth) v (
      (on_frame-Waits n u lan.asked (v.truth.nodes u) (v.waits u) f.0 f.1
          (All-get_elem? (FrameTrue n) lan.sent j v.truth.sent there)).at
        r ran)
Step-AllAnswered n {lan} (connection_step u connfd ip r ran) v =
    event-AllAnswered n u (ask_of u connfd ip ∷ []) r
      (Step-Inv n (connection_step u connfd ip r ran) v.truth) v
      ((on_connection-Waits n u lan.asked (v.truth.nodes u) (v.waits u) connfd ip).at r ran)

begun-AllAnswered : (n : Nodes) → AllAnswered n (begun n)
unfolding start
begun-AllAnswered n = record {
  truth = begun-Inv n;
  waits = λ u i e there. inl (ap (λ (d : CacheEntry). d.sockfd) (get_elem?-replicate 10 i there));
  answers = tt;
}

Reach-AllAnswered :
    (n : Nodes) {lan last : Lan} → Reach lan last → AllAnswered n lan → AllAnswered n last
Reach-AllAnswered n begin v = v
Reach-AllAnswered n (and_then path s) v = Step-AllAnswered n s (Reach-AllAnswered n path v)

-- On an Ethernet of these nodes that loses, repeats and reorders frames, and whatever addresses their
-- tour processes ask for: whatever a node ever wrote on a descriptor other than 0 is the hardware
-- address of a node whose address the tour process of the first had asked for on that descriptor.
pub answers_are_true :
    (n : Nodes) {lan : Lan} (j : ℕ) {a : Answer}
    → Reach (begun n) lan
    → get_elem? lan.answers j ≡ some a
    → AnswerTrue n lan.asked a
answers_are_true n {lan} j path there =
    All-get_elem? (AnswerTrue n lan.asked) lan.answers j
      (Reach-AllAnswered n path (begun-AllAnswered n)).answers there
