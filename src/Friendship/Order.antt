-- ===== src/Friendship/Order.antt =====
-- The order of events does not matter: the newest one decides.
use mathlib.Core.List.{Permᴰ}
use line_message_playground.Prelude.{
  ℕ, ◌/◌, ◌≡◌, refl, sym, ◌∙◌, ap, subst, map, Bool, true, false, ◌&&◌, not, Option, none, some,
  List, [], ◌∷◌, leb, if◌then◌else◌, inl, inr, Bool-cases, arith, All,
}
use line_message_playground.Prelude.Text.{Text, text_eq_iff}
use line_message_playground.Friendship.Projection.{
  FriendshipState, known, updates, ValidatedFriendshipEvent, LockedRecipientProjection, bytes_lt,
  key_lt, event_key, decide_projection, apply_locked, project,
}

bytes_asym : (s t : Text) → bytes_lt s t ≡ true → bytes_lt t s ≡ false
bytes_asym [] [] h = refl
bytes_asym [] (b ∷ t) h = refl
bytes_asym (a ∷ s) [] h = cc
bytes_asym (a ∷ s) (b ∷ t) h = ground (arith, bytes_asym s t)

bytes_total : (s t : Text) → bytes_lt s t ≡ false → bytes_lt t s ≡ false → s ≡ t
bytes_total [] [] h k = refl
bytes_total [] (b ∷ t) h k = cc
bytes_total (a ∷ s) [] h k = cc
bytes_total (a ∷ s) (b ∷ t) h k = ground (arith, bytes_total s t)

bytes_trans : (r s t : Text) → bytes_lt r s ≡ true → bytes_lt s t ≡ true → bytes_lt r t ≡ true
bytes_trans [] [] t h k = cc
bytes_trans [] (b ∷ s) [] h k = cc
bytes_trans [] (b ∷ s) (c ∷ t) h k = refl
bytes_trans (a ∷ r) [] t h k = cc
bytes_trans (a ∷ r) (b ∷ s) [] h k = cc
bytes_trans (a ∷ r) (b ∷ s) (c ∷ t) h k = ground (arith, bytes_trans r s t)

bytes_irrefl : (s : Text) → bytes_lt s s ≡ false
bytes_irrefl [] = refl
bytes_irrefl (a ∷ s) = ground (arith, bytes_irrefl s)

abbrev Key : Type 0
Key = ℕ × Text

key_asym : (a b : Key) → key_lt a b ≡ true → key_lt b a ≡ false
key_asym (m, s) (n, t) h = ground (arith, bytes_asym s t)

key_total : (a b : Key) → key_lt a b ≡ false → key_lt b a ≡ false → a ≡ b
key_total (m, s) (n, t) h k = ground (arith, bytes_total s t)

key_trans : (a b c : Key) → key_lt a b ≡ true → key_lt b c ≡ true → key_lt a c ≡ true
key_trans (l, r) (m, s) (n, t) h k = ground (arith, bytes_trans r s t)

All-Permᴰ :
    (P : ValidatedFriendshipEvent → Type 0) {es fs : List ValidatedFriendshipEvent}
    → Permᴰ es fs
    → All P es
    → All P fs
All-Permᴰ P Permᴰ.nil h = h
All-Permᴰ P (Permᴰ.cons e d) (h, hs) = (subst P e h, All-Permᴰ P d hs)
All-Permᴰ P (Permᴰ.swap e₁ e₂) (h, ks) = (subst P e₂ ks.0, (subst P e₁ h, ks.1))
All-Permᴰ P (Permᴰ.trans d₁ d₂) h = All-Permᴰ P d₂ (All-Permᴰ P d₁ h)

-- What identifies an event: its id fixes its time, and both fix the state that it reports.
pub record IsIdentified (time_of : Text → ℕ) (state_at : ℕ × Text → FriendshipState)
    (e : ValidatedFriendshipEvent) : Type 0 where
  pub time : e.occurred_at_ms ≡ time_of e.webhook_event_id
  pub state : e.target_state ≡ state_at (event_key e)

-- The time of the last event that was applied is the one of its id.
abbrev pub LastIdentified : (Text → ℕ) → Option (ℕ × Text) → Type 0
LastIdentified time_of none = Unit
LastIdentified time_of (some (m, id)) = m ≡ time_of id

pub process : LockedRecipientProjection → List ValidatedFriendshipEvent → LockedRecipientProjection
process p [] = p
process p (e ∷ es) = process (project p e).1 es

abbrev after : Option Key → Key → Bool
after none k = true
after (some l) k = key_lt l k

module _ (time_of : Text → ℕ) (state_at : ℕ × Text → FriendshipState) where
  -- What an event with key `k` does to a row: it decides if it is newer than the registration and the
  -- last event.
  place : LockedRecipientProjection → Key → LockedRecipientProjection
  place p k =
      if not (leb k.0 (p.registered_at / 1000)) && after p.last k
      then record p { friendship_state = known (state_at k); last = some k }
      else p

  project-place :
      (p : LockedRecipientProjection) (e : ValidatedFriendshipEvent)
      → IsIdentified time_of state_at e
      → LastIdentified time_of p.last
      → (project p e).1 ≡ place p (event_key e)
  unfolding project place
  project-place p e i l = go p.last refl l
    where
      go :
          (o : Option Key)
          → p.last ≡ o
          → LastIdentified time_of o
          → (project p e).1 ≡ place p (event_key e)
      go none q t = ground (arith, i.state)
      go (some (m, id)) q t = ground (
        arith,
        i.state,
        i.time,
        text_eq_iff id e.webhook_event_id,
        bytes_irrefl e.webhook_event_id,
      )

  place_comm :
      (p : LockedRecipientProjection) (a b : Key) → place (place p a) b ≡ place (place p b) a
  unfolding place
  place_comm p a b = go p.last refl
    where
      go : (o : Option Key) → p.last ≡ o → place (place p a) b ≡ place (place p b) a
      go none q = ground (arith, key_asym a b, key_asym b a, key_total a b)
      go (some l) q =
          ground
            (arith, key_asym a b, key_asym b a, key_total a b, key_trans l a b, key_trans l b a)

  project-LastIdentified :
      (p : LockedRecipientProjection) (e : ValidatedFriendshipEvent)
      → IsIdentified time_of state_at e
      → LastIdentified time_of p.last
      → LastIdentified time_of (project p e).1.last
  unfolding project apply_locked
  project-LastIdentified p e i l = elim (Bool-cases (updates (decide_projection p e))) [
    | inl y ↦
        subst (λ b. LastIdentified time_of (if b then apply_locked p e else p).last) (sym y) i.time
    | inr n ↦ subst (λ b. LastIdentified time_of (if b then apply_locked p e else p).last) (sym n) l
  ]

  -- The keys, placed one after the other.
  place_all : LockedRecipientProjection → List Key → LockedRecipientProjection
  place_all p [] = p
  place_all p (k ∷ ks) = place_all (place p k) ks

  process-place_all :
      (p : LockedRecipientProjection) (es : List ValidatedFriendshipEvent)
      → All (IsIdentified time_of state_at) es
      → LastIdentified time_of p.last
      → process p es ≡ place_all p (map event_key es)
  unfolding process place_all
  process-place_all p [] i l = refl
  process-place_all p (e ∷ es) (i, is) l =
      process-place_all (project p e).1 es is (project-LastIdentified p e i l)
      ∙ ap (λ q. place_all q (map event_key es)) (project-place p e i l)

  place_all-Permᴰ :
      (p : LockedRecipientProjection) {es fs : List ValidatedFriendshipEvent}
      → Permᴰ es fs
      → place_all p (map event_key es) ≡ place_all p (map event_key fs)
  unfolding place_all
  place_all-Permᴰ p Permᴰ.nil = refl
  place_all-Permᴰ p (Permᴰ.cons {a = a} {b = b} {l₁ = l} {l₂ = m} e d) =
      ap (λ x. place_all (place p (event_key x)) (map event_key l)) e
      ∙ place_all-Permᴰ (place p (event_key b)) d
  place_all-Permᴰ p (Permᴰ.swap {a = a} {b = b} {a' = a'} {b' = b'} {l = l} e₁ e₂) =
      ap (λ x. place_all (place (place p (event_key x)) (event_key b)) (map event_key l)) e₁
      ∙ ap (λ x. place_all (place (place p (event_key b')) (event_key x)) (map event_key l)) e₂
      ∙ ap (λ q. place_all q (map event_key l)) (place_comm p (event_key b') (event_key a'))
  place_all-Permᴰ p (Permᴰ.trans d₁ d₂) = place_all-Permᴰ p d₁ ∙ place_all-Permᴰ p d₂

-- Two deliveries of the same events in different orders leave the same row, repetitions included,
-- if an event's id determines its time, the id and the time determine the state it reports, and the
-- time of the row's last event is the one of its id.
pub process_order :
    (time_of : Text → ℕ) (state_at : ℕ × Text → FriendshipState) (p : LockedRecipientProjection)
    (es fs : List ValidatedFriendshipEvent)
    → All (IsIdentified time_of state_at) es
    → LastIdentified time_of p.last
    → Permᴰ es fs
    → process p es ≡ process p fs
process_order time_of state_at p es fs i l d =
    process-place_all time_of state_at p es i l
    ∙ place_all-Permᴰ time_of state_at p d
    ∙ sym
        (process-place_all time_of state_at p fs (All-Permᴰ (IsIdentified time_of state_at) d i) l)
