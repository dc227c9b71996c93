-- ===== src/Interaction/Registry.antt =====
-- backend/lineinteractions/registries.py: StaticPostbackActionRegistry. A handler is of any type, with
-- the test whether its `handle` can be called.
use line_message_playground.Prelude.{
  Bool, true, false, ◌&&◌, not, Option, none, some, List, [], ◌∷◌, if◌then◌else◌, ◌≡◌, refl, subst,
  sym, All, Bool-cases, inl, inr, arith,
}
use line_message_playground.Prelude.Text.{Text, text_eq, text_eq_iff, text_eq_refl}
use line_message_playground.Prelude.Rows.{exists}
use line_message_playground.Interaction.Parsing.{is_action_name}

module _ {H : Type 0} (callable : H → Bool) where
  abbrev pub Handlers : Type 0
  Handlers = List (Text × H)

  abbrev pub is_named_as : Text → Text × H → Bool
  is_named_as name (n, h) = text_eq n name

  -- `StaticPostbackActionRegistry.resolve`
  unfoldable pub resolve_action : Handlers → Text → Option H
  resolve_action [] name = none
  resolve_action ((n, h) ∷ handlers) name =
      let rest = resolve_action handlers name in if text_eq n name then some h else rest

  abbrev pub is_valid : Handlers → Text → H → Bool
  unfolding is_action_name
  is_valid handlers name h =
      is_action_name name && (callable h && not (exists (is_named_as name) handlers))

  -- `StaticPostbackActionRegistry(...)`: nothing where it raises.
  unfoldable pub register : Handlers → Handlers → Option Handlers
  unfolding is_valid
  register handlers [] = some handlers
  register handlers ((name, h) ∷ rest) =
      let registered = register ((name, h) ∷ handlers) rest in
      if is_valid handlers name h then registered else none

  resolve_action-exists :
      (handlers : Handlers) (name : Text) (h : H)
      → resolve_action handlers name ≡ some h
      → exists (is_named_as name) handlers ≡ true
  unfolding resolve_action
  resolve_action-exists [] name h e = cc
  resolve_action-exists ((n, k) ∷ handlers) name h e = elim (Bool-cases (text_eq n name)) [
    | inl f ↦ rw f refl
    | inr f ↦
        let e' = subst (λ b. (if b then some k else resolve_action handlers name) ≡ some h) f e in
        rw f (resolve_action-exists handlers name h e')
  ]

  -- What is there stays: a further handler has another name.
  resolve_action-stays :
      (handlers : Handlers) (name : Text) (k : H) (other : Text) (h : H)
      → exists (is_named_as name) handlers ≡ false
      → resolve_action handlers other ≡ some h
      → resolve_action ((name, k) ∷ handlers) other ≡ some h
  unfolding resolve_action
  resolve_action-stays handlers name k other h n e = elim (Bool-cases (text_eq name other)) [
    | inl f ↦
        let m =
          subst (λ o. exists (is_named_as o) handlers ≡ true) (sym ((text_eq_iff name other).0 f))
            (resolve_action-exists handlers other h e) in
        ground (arith, m, n)
    | inr f ↦ rw f e
  ]

  resolve_action-own :
      (handlers : Handlers) (name : Text) (h : H)
      → resolve_action ((name, h) ∷ handlers) name ≡ some h
  unfolding resolve_action
  resolve_action-own handlers name h = rw (text_eq_refl name) refl

  register-keeps :
      (handlers rest registered : Handlers) (name : Text) (h : H)
      → register handlers rest ≡ some registered
      → resolve_action handlers name ≡ some h
      → resolve_action registered name ≡ some h
  unfolding register
  register-keeps handlers [] registered name h e r =
      subst (λ o. elim o [ none ↦ Unit | some x ↦ resolve_action x name ≡ some h ]) e r
  register-keeps handlers ((n, k) ∷ rest) registered name h e r =
      elim (Bool-cases (is_valid handlers n k)) [
        | inl v ↦
            register-keeps ((n, k) ∷ handlers) rest registered name h
              (subst
                (λ b. (if b then register ((n, k) ∷ handlers) rest else none) ≡ some registered) v
                e)
              (resolve_action-stays handlers n k name h (ground arith) r)
        | inr v ↦ ground arith
      ]

  -- If registrations can be added to a registry, then the new registry resolves every one of them to
  -- its handler, and all their names are names that a postback can have.
  pub register-resolves :
      (handlers rest registered : Handlers)
      → register handlers rest ≡ some registered
      → All (λ r. (resolve_action registered r.0 ≡ some r.1) × (is_action_name r.0 ≡ true)) rest
  unfolding register
  register-resolves handlers [] registered e = tt
  register-resolves handlers ((n, k) ∷ rest) registered e =
      elim (Bool-cases (is_valid handlers n k)) [
        | inl v ↦
            let e' =
              subst (λ b. (if b then register ((n, k) ∷ handlers) rest else none) ≡ some registered)
                v e in
            (
              (
                register-keeps ((n, k) ∷ handlers) rest registered n k e'
                    (resolve_action-own handlers n k),
                ground arith,
              ),
              register-resolves ((n, k) ∷ handlers) rest registered e',
            )
        | inr v ↦ ground arith
      ]
