-- ===== src/Node/Wiping.antt =====
-- `Reset` of pkg/node/node.go.
use interactive_paxos.Prelude.{
  Bool, ◌≡◌, refl, sym, ◌∙◌, ap, inl, inr, Option, none, some, Error, Result-cases, arith,
  if◌then◌else◌, subst,
}
use interactive_paxos.Messages.{empty_state}
use interactive_paxos.Store.{Store, IsDurable}
use interactive_paxos.Acceptor.{Acceptor, new_acceptor}
use interactive_paxos.Node.{
  Node, Opening, Resetting, no_decision, kill, trigger_campaign, revive, come_up, wipe, reset,
  unless_failed, save_empty,
}

module _ {S : Type 0} where
  -- If the whole goes well, so does the first part, and the rest goes on from there.
  unless_failed-none :
      (r : Option Error × Node S) (next : Node S → Option Error × Node S)
      → (unless_failed r next).0 ≡ none
      → (r.0 ≡ none) × (unless_failed r next ≡ next r.1)
  unless_failed-none (some e, n) next h = (h, cc)
  unless_failed-none (none, n) next h = (refl, refl)

  campaign_if-parts :
      (b : Bool) (n : Node S)
      → ((if b then trigger_campaign n else n).acceptor ≡ n.acceptor)
        × ((if b then trigger_campaign n else n).decision ≡ n.decision)
  unfolding trigger_campaign
  campaign_if-parts b n = (ground arith, ground arith)

module _ {S : Type 0} {ops : Store S} (d : IsDurable ops) where
  -- A node that has come up has read its file.
  revive-content :
      (o : Opening) (n : Node S)
      → (revive ops o n).0 ≡ none
      → (a : Acceptor S) × ((revive ops o n).1.acceptor ≡ some a)
        × ((revive ops o n).1.decision ≡ n.decision)
        × (a.state ≡ d.content n.disk)
  unfolding revive new_acceptor
  revive-content o n up = elim (Result-cases (ops.load n.disk)) [
    | inl (x, loaded) ↦ (
      record { id = n.cfg.id; store = n.disk; state = x },
      ground arith,
      ground arith,
      d.load-content n.disk x loaded,
    )
    | inr (e, failed) ↦ absurd (ground arith)
  ]

  IsWiped : Node S → Type 0
  IsWiped n =
      (a : Acceptor S) × (n.acceptor ≡ some a)
      × (a.state ≡ empty_state)
      × (n.decision ≡ no_decision)

  come_up-IsWiped :
      (o : Opening) (n : Node S)
      → d.content n.disk ≡ empty_state
      → (come_up ops o n).0 ≡ none
      → IsWiped (come_up ops o n).1
  unfolding IsWiped
  come_up-IsWiped o n wiped up =
      let n' : Node S = record n { decision = no_decision } in
      let (revived, after) = unless_failed-none (revive ops o n') _ up in
      let (a, here, decided, read) = revive-content o n' revived in
      let m : Node S = (revive ops o n').1 in
      let (same, kept) = campaign_if-parts m.cfg.campaign m in
      (
        a,
        ap (λ r. r.1.acceptor) after ∙ same ∙ here,
        read ∙ wiped,
        ap (λ r. r.1.decision) after ∙ kept ∙ decided,
      )

  -- After a `Reset` without an error, the node has an acceptor in the zero state and no decision.
  pub reset-wiped :
      (r : Resetting) (n : Node S)
      → (reset ops r n).0 ≡ none
      → (a : Acceptor S) × ((reset ops r n).1.acceptor ≡ some a)
        × (a.state ≡ empty_state)
        × ((reset ops r n).1.decision ≡ no_decision)
  unfolding reset IsWiped
  reset-wiped r n h =
      let (_, e_kill) = unless_failed-none (kill r.kill_error n) (wipe ops r) h in
      let m : Node S = (kill r.kill_error n).1 in
      let (_, e_open) = unless_failed-none (r.open_error, m) _ (sym (ap (λ x. x.0) e_kill) ∙ h) in
      let e_2 : reset ops r n ≡ _ = e_kill ∙ e_open in
      let (saved, e_save) = unless_failed-none (save_empty ops m) _ (sym (ap (λ x. x.0) e_2) ∙ h) in
      let e_3 : reset ops r n ≡ _ = e_2 ∙ e_save in
      let k : Node S = (save_empty ops m).1 in
      let (_, e_close) =
        unless_failed-none (r.close_error, k) (come_up ops r.opening)
          (sym (ap (λ x. x.0) e_3) ∙ h) in
      let e_4 : reset ops r n ≡ come_up ops r.opening k = e_3 ∙ e_close in
      subst (λ x. IsWiped x.1) (sym e_4)
        (come_up-IsWiped r.opening k (d.content-save empty_state m.disk saved)
          (sym (ap (λ x. x.0) e_4) ∙ h))
