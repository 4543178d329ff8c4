-- ===== src/Arp/Lan/Tests.antt =====
-- Two nodes on an Ethernet: one resolves the address of the other.
use cse.Base.{
  ℕ, ◌+◌, ◌≡◌, refl, Bytes, List, [], ◌∷◌, some, codes, replicate, same, get_elem?, htons, ntohs,
  ◌==◌, if◌then◌else◌, Outcome, ok, fault,
}
use cse.Arp.{
  Arp, CacheEntry, Call, Header, ArpMessage, vm_addr, start, index_of, answer_header,
  answer_message, ask_header, ask_message, store, on_frame, on_connection,
}
use cse.Arp.Lan.{
  Nodes, Answer, Lan, after_event, ask_of, frame_step, connection_step, Reach, begin, and_then,
  begun,
}
use cse.Arp.Lan.Truth.{Owns, caches_are_true}
use cse.Arp.Lan.Answers.{AnswerTrue}
use cse.Arp.Lan.Answered.{answers_are_true}

abbrev vm1 : Bytes
vm1 = codes "130.245.156.21"

abbrev vm3 : Bytes
vm3 = codes "130.245.156.23"

abbrev two : Nodes
two = record { ip = λ u. if u == 0 then vm1 else vm3; mac = λ u. replicate 6 (u + 1) }

abbrev result : Arp → Outcome (Arp × List Call) → Arp × List Call
result a fault = (a, [])
result a (ok r) = r

abbrev heard : Lan → (u : ℕ) → Header × ArpMessage → Lan
heard lan u f = after_event lan u [] (result (lan.arp u) (on_frame (lan.arp u) f.0 f.1))

abbrev asked : Lan
asked =
    after_event (begun two) 0 (ask_of 0 5 vm3 ∷ [])
      (result ((begun two).arp 0) (on_connection ((begun two).arp 0) 5 vm3))

abbrev request : Header × ArpMessage
request = (ask_header ((begun two).arp 0), ask_message ((begun two).arp 0) vm3)

abbrev reply : Header × ArpMessage
reply = (answer_header ((begun two).arp 1) request.0, answer_message ((begun two).arp 1) request.1)

abbrev answered : Lan
answered = heard asked 1 request

abbrev resolved : Lan
resolved = heard answered 0 reply

abbrev entry : CacheEntry
entry = record { ip_addr = vm3; mac_addr = replicate 6 2; sockfd = 5 }

abbrev told : Answer
told = record { node = 0; fd = 5; bytes = replicate 6 2 }

abbrev Heard : Lan → (u : ℕ) → Header × ArpMessage → Type 0
Heard lan u f =
    (get_elem? lan.sent 0 ≡ some f)
    × (on_frame (lan.arp u) f.0 f.1 ≡ ok (result (lan.arp u) (on_frame (lan.arp u) f.0 f.1)))

all_run :
    (on_connection ((begun two).arp 0) 5 vm3
      ≡ ok (result ((begun two).arp 0) (on_connection ((begun two).arp 0) 5 vm3)))
    × Heard asked 1 request
    × Heard answered 0 reply
    × (get_elem? (resolved.arp 0).cache 2 ≡ some entry)
    × (get_elem? resolved.answers 0 ≡ some told)
unfolding on_connection on_frame store index_of vm_addr same start ask_header ask_message
    answer_header answer_message htons ntohs
all_run = (refl, (refl, refl), (refl, refl), refl, refl)

reached : Reach (begun two) resolved
reached =
    let (one, second, third, _, _) = all_run in
    and_then
      (and_then (and_then begin (connection_step 0 5 vm3 _ one))
        (frame_step 1 0 request _ second.0 second.1))
      (frame_step 0 0 reply _ third.0 third.1)

caches_are_true_example : (entry.ip_addr ≡ vm3) × Owns two entry.ip_addr entry.mac_addr
caches_are_true_example =
    caches_are_true two 0 2 reached all_run.3 (unfold vm_addr in refl) (λ e. absurd (cc))

answers_are_true_example : AnswerTrue two resolved.asked told
answers_are_true_example = answers_are_true two 0 reached all_run.4
