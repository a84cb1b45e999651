-- ===== src/Commands/Targets.antt =====
-- The nodes that `console` is told of.
use interactive_paxos.Prelude.{
  sym, suc, ℤ, ◌≡◌, refl, ◌∙◌, ap, subst, inl, inr, Bool, true, false, String, Result, ok, err,
  Error, List, [], ◌∷◌, Has, length, if◌then◌else◌, Result-cases, Option-cases, ok-injective, arith,
}
use interactive_paxos.Peers.{Peer, parse_peer, is_seen}
use interactive_paxos.Commands.{Texts, parse_format, parse_level, first_error}
use interactive_paxos.Commands.Console.{
  ConsoleFlags, Target, public_loop, public_of, target_loop, has_target, all_named, run_console,
  console_checks, console_command,
}
use interactive_paxos.Commands.Checked.{bind_ok}

-- No target has the id of an earlier one, or one of the keys.
abbrev pub AreTargets : List ℤ → List Target → Type 0
AreTargets seen [] = Unit
AreTargets seen (t ∷ ts) = (is_seen t.id seen ≡ false) × AreTargets (t.id ∷ seen) ts

else_ok :
    {A : Type 0} {a : A} (e : Error) (b : Bool) (r : Result A)
    → (if b then err e else r) ≡ ok a
    → r ≡ ok a
else_ok e true r h = cc
else_ok e false r h = h

then_ok :
    {A : Type 0} {a : A} (e : Error) {b : Bool} (a' : A)
    → (if b then ok a' else err e) ≡ ok a
    → (b ≡ true) × (a' ≡ a)
then_ok e {b = true} a' h = (refl, ok-injective h)
then_ok e {b = false} a' h = cc

module _ (texts : Texts) where
  target_parts :
      (public : List (ℤ × String)) (seen : List ℤ) (spec : String) (specs : List String)
      (targets : List Target)
      → target_loop texts public seen (spec ∷ specs) ≡ ok targets
      → (p : Peer) × (rest : List Target) × (parse_peer texts.strings spec ≡ ok p)
        × (is_seen p.id seen ≡ false)
        × (target_loop texts public (p.id ∷ seen) specs ≡ ok rest)
        × (record { id = p.id; addr = p.addr; public = public_of texts p.id public } ∷ rest
            ≡ targets)
  unfolding target_loop
  target_parts public seen spec specs targets h =
      elim (Result-cases (parse_peer texts.strings spec)) [
        | inr (e, failed) ↦ absurd (ground arith)
        | inl (p, parsed) ↦ elim (Result-cases (target_loop texts public (p.id ∷ seen) specs)) [
          | inr (e, failed) ↦ absurd (ground arith)
          | inl (rest, done) ↦ (p, rest, parsed, ground arith, done, ground arith)
        ]
      ]

  target_loop-AreTargets :
      (public : List (ℤ × String)) (seen : List ℤ) (specs : List String) (targets : List Target)
      → target_loop texts public seen specs ≡ ok targets
      → AreTargets seen targets × (length targets ≡ length specs)
  unfolding target_loop
  target_loop-AreTargets public seen [] targets h =
      subst (λ ts. AreTargets seen ts × (length ts ≡ 0)) (ok-injective h) (tt, refl)
  target_loop-AreTargets public seen (spec ∷ specs) targets h =
      let (p, rest, parsed, new, done, e) = target_parts public seen spec specs targets h in
      let (later, count) = target_loop-AreTargets public (p.id ∷ seen) specs rest done in
      subst (λ ts. AreTargets seen ts × (length ts ≡ suc (length specs))) e
        ((new, later), omega arith)

  named_target :
      (public : List (ℤ × String)) (targets : List Target)
      → all_named public targets ≡ true
      → (id : ℤ) (addr : String) → Has (id, addr) public
      → has_target id targets ≡ true
  named_target [] targets h id addr m = absurd m
  named_target ((k, a) ∷ public) targets h id addr m = elim m [
    | inl e ↦ ap (λ (x : ℤ × String). has_target x.0 targets) e ∙ ground arith
    | inr later ↦ named_target public targets (ground arith) id addr later
  ]

  public_parts :
      (spec : String) (specs : List String) (seen public : List (ℤ × String))
      → public_loop texts (spec ∷ specs) seen ≡ ok public
      → (p : Peer) × (parse_peer texts.strings spec ≡ ok p)
        × (public_loop texts specs ((p.id, p.addr) ∷ seen) ≡ ok public)
  unfolding public_loop
  public_parts spec specs seen public h = elim (Result-cases (parse_peer texts.strings spec)) [
    | inr (e, failed) ↦ absurd (ground arith)
    | inl (p, parsed) ↦ (p, parsed, ground arith)
  ]

  -- The loop over the public addresses keeps those of every specification.
  public_loop-kept :
      (specs : List String) (seen public : List (ℤ × String))
      → public_loop texts specs seen ≡ ok public
      → ((x : ℤ × String) → Has x seen → Has x public)
        × ((spec : String)
            → Has spec specs
            → (p : Peer) × (parse_peer texts.strings spec ≡ ok p) × Has (p.id, p.addr) public)
  unfolding public_loop
  public_loop-kept [] seen public h = (λ x m. subst (Has x) (ok-injective h) m, λ spec m. absurd m)
  public_loop-kept (spec ∷ specs) seen public h =
      let (p, parsed, rest) = public_parts spec specs seen public h in
      let (old, new) = public_loop-kept specs ((p.id, p.addr) ∷ seen) public rest in
      (
        λ x m. old x (inr m),
        λ other m. elim m [
          | inl e ↦ (p, ap (parse_peer texts.strings) e ∙ parsed, old (p.id, p.addr) (inl refl))
          | inr later ↦ new other later
        ],
      )

  run_console-AreTargets :
      (f : ConsoleFlags) (targets : List Target)
      → run_console texts f ≡ ok targets
      → AreTargets [] targets
        × (length targets ≡ length f.nodes)
        × ((spec : String)
            → Has spec f.public
            → (p : Peer) × (parse_peer texts.strings spec ≡ ok p)
              × (has_target p.id targets ≡ true))
  unfolding run_console
  run_console-AreTargets f targets h =
      let (format, _, h1) = bind_ok (parse_format texts f.log_format) _ targets h in
      let (level, _, h2) = bind_ok (parse_level texts f.log_level) _ targets h1 in
      let (public, e, h3) = bind_ok (public_loop texts f.public []) _ targets (else_ok _ _ _ h2) in
      let (found, q, h4) = bind_ok (target_loop texts public [] f.nodes) _ targets h3 in
      let (named, same) = then_ok _ found h4 in
      let (distinct, count) = target_loop-AreTargets public [] f.nodes found q in
      subst
        (λ ts.
          AreTargets [] ts
          × (length ts ≡ length f.nodes)
          × ((spec : String)
              → Has spec f.public
              → (p : Peer) × (parse_peer texts.strings spec ≡ ok p) × (has_target p.id ts ≡ true)))
        same
        (
          distinct,
          count,
          λ spec m.
              let (p, parsed, kept) = (public_loop-kept f.public [] public e).1 spec m in
              (p, parsed, named_target public found named p.id p.addr kept),
        )

  command_ran :
      (f : ConsoleFlags) (targets : List Target)
      → console_command texts f ≡ ok targets
      → run_console texts f ≡ ok targets
  unfolding console_command
  command_ran f targets h = elim (Option-cases (first_error (console_checks texts f))) [
    | inl e ↦
        let r : console_command texts f ≡ run_console texts f = rw (console_command, e) refl in
        sym r ∙ h
    | inr (x, e) ↦
        let r : console_command texts f ≡ err x = rw (console_command, e) refl in cc (sym r ∙ h)
  ]

  -- If `console` accepts its flags, there is one target for each `--node`, no two have the same id, and
  -- every `--node-public` parses and is for the id of a target.
  pub console_command-AreTargets :
      (f : ConsoleFlags) (targets : List Target)
      → console_command texts f ≡ ok targets
      → AreTargets [] targets
        × (length targets ≡ length f.nodes)
        × ((spec : String)
            → Has spec f.public
            → (p : Peer) × (parse_peer texts.strings spec ≡ ok p)
              × (has_target p.id targets ≡ true))
  console_command-AreTargets f targets h =
      run_console-AreTargets f targets (command_ran f targets h)
