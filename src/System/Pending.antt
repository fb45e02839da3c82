-- ===== src/System/Pending.antt =====
-- The versions of a class that the controller's cache is behind by, and which of the changes between
-- them its event filter lets through.
use kubedns_shepherd.Base.{
  Bool, true, false, ◌||◌, List, [], ◌∷◌, ◌++◌, Option, none, some, some-injective, none-ne_some,
  ◌≡◌, ◌≢◌, refl, ◌∙◌, ap,
}
use kubedns_shepherd.Api.{DnsClass}
use kubedns_shepherd.Controller.Predicate.{create_event, update_event, delete_event}
use kubedns_shepherd.System.{event}

pub or_false : (a b : Bool) → (a || b) ≡ false → (a ≡ false) × (b ≡ false)
or_false true b h = cc
or_false false b h = (refl, h)

-- The version behind a row of versions, and whether one of the changes between them is an event.
abbrev pub latest : Option DnsClass → List (Option DnsClass) → Option DnsClass
latest v [] = v
latest v (x ∷ xs) = latest x xs

abbrev pub loud : Option DnsClass → List (Option DnsClass) → Bool
loud v [] = false
loud v (x ∷ xs) = event v x || loud x xs

-- An update that is no event keeps the spec.
abbrev pub IsFair : Option DnsClass → Option DnsClass → Type 0
IsFair (some old) (some new) = update_event old new ≡ false → old.spec ≡ new.spec
IsFair (some old) none = Unit
IsFair none new = Unit

abbrev pub AreFair : Option DnsClass → List (Option DnsClass) → Type 0
AreFair v [] = Unit
AreFair v (x ∷ xs) = IsFair v x × AreFair x xs

pub latest-append :
    (v x : Option DnsClass) (xs : List (Option DnsClass)) → latest v (xs ++ (x ∷ [])) ≡ x
latest-append v x [] = refl
latest-append v x (y ∷ xs) = latest-append y x xs

pub loud-append :
    (v x : Option DnsClass) (xs : List (Option DnsClass))
    → loud v (xs ++ (x ∷ [])) ≡ false
    → (loud v xs ≡ false) × (event (latest v xs) x ≡ false)
loud-append v x [] h = (refl, (or_false (event v x) false h).0)
loud-append v x (y ∷ xs) h =
    let (first, rest) = or_false (event v y) (loud y (xs ++ (x ∷ []))) h in
    let (quiet, last) = loud-append y x xs rest in (rw (first, quiet) refl, last)

pub AreFair-append :
    (v x : Option DnsClass) (xs : List (Option DnsClass))
    → AreFair v xs
    → IsFair (latest v xs) x
    → AreFair v (xs ++ (x ∷ []))
AreFair-append v x [] h k = (k, tt)
AreFair-append v x (y ∷ xs) (f, h) k = (f, AreFair-append y x xs h k)

-- A class that comes into being is an event.
pub latest-loud :
    (c : DnsClass) (xs : List (Option DnsClass)) → latest none xs ≡ some c → loud none xs ≢ false
unfolding create_event
latest-loud c [] e h = none-ne_some e
latest-loud c (none ∷ xs) e h = latest-loud c xs e h
latest-loud c (some d ∷ xs) e h = cc

-- Without an event the spec stays the same.
pub latest-spec :
    (o c : DnsClass) (xs : List (Option DnsClass))
    → AreFair (some o) xs
    → latest (some o) xs ≡ some c
    → loud (some o) xs ≡ false
    → o.spec ≡ c.spec
latest-spec o c [] h e q = ap (λ x. x.spec) (some-injective e)
latest-spec o c (none ∷ xs) (f, h) e q =
    absurd (latest-loud c xs e ((or_false (delete_event o) (loud none xs) q).1))
latest-spec o c (some d ∷ xs) (f, h) e q =
    let (quiet, rest) = or_false (update_event o d) (loud (some d) xs) q in
    f quiet ∙ latest-spec d c xs h e rest

pub IsFair-none : (v : Option DnsClass) → IsFair v none
IsFair-none none = tt
IsFair-none (some c) = tt
