-- ===== src/Controller/Status/Written.antt =====
-- `writeStatus`: the runs that it may make.
use kubedns_shepherd.Base.{
  true, false, Option, none, some, codes, Result, ok, err, ◌≡◌, refl, sym, ap, inl, inr, Bool-cases,
  subst,
}
use kubedns_shepherd.Api.{DnsClass}
use kubedns_shepherd.Controller.Cluster.{Cluster, Documented, Retried, last, again}
use kubedns_shepherd.Controller.Status.{write_back, attempt, wrap_unless_not_found, write_status}

module _ (cluster : Cluster) where
  open cluster use {World, Error, wrap, is_not_found, is_conflict, get, update}

  abbrev Reply : Type 0
  Reply = Option Error × World

  -- What one try may do: the class is read anew, and written back with the new status and nothing
  -- else changed.
  pub data Try (c : DnsClass) (w : World) (r : Reply) : Type 0 where
    unread :
        {e : Error} {w' : World}
        → get c.name c.namespace w ≡ (err e, w')
        → r ≡ (some e, w')
        → Try c w r
    updated :
        {dc : DnsClass} {w' : World}
        → get c.name c.namespace w ≡ (ok dc, w')
        → update (record dc { status = c.status }) w' ≡ r
        → Try c w r

  attempt-Try :
      (c : DnsClass) (w : World) (g : Result Error DnsClass × World)
      → get c.name c.namespace w ≡ g
      → Try c w (attempt cluster c w)
  unfolding attempt
  attempt-Try c w (err e, w') h = unread h (ap (write_back cluster c) h)
  attempt-Try c w (ok dc, w') h = updated h (sym (ap (write_back cluster c) h))

  -- The runs of `writeStatus`: tries that end in a conflict may be repeated, and after the last one
  -- nil is returned if it succeeded or if the class is not found, and the wrapped error if not.
  pub data Written (c : DnsClass) : World → Reply → Type 0 where
    stored : {w w' : World} → Try c w (none, w') → Written c w (none, w')
    gone :
        {w w' : World} {e : Error}
        → Try c w (some e, w')
        → is_not_found e ≡ true
        → Written c w (none, w')
    failed :
        {w w' : World} {e f : Error}
        → Try c w (some e, w')
        → is_not_found e ≡ false
        → f ≡ wrap e (codes "update status")
        → Written c w (some f, w')
    retried :
        {w w' : World} {e : Error} {r : Reply}
        → Try c w (some e, w')
        → is_conflict e ≡ true
        → Written c w' r
        → Written c w r

  Written-last :
      (c : DnsClass) (w : World) (r : Reply)
      → Try c w r
      → Written c w (wrap_unless_not_found cluster r)
  Written-last c w (none, w') t = stored t
  Written-last c w (some e, w') t = elim (Bool-cases (is_not_found e)) [
    | inl n ↦ rw n (gone t n)
    | inr n ↦ rw n (failed t n refl)
  ]

  Try-attempt : (c : DnsClass) (w : World) {r : Reply} → attempt cluster c w ≡ r → Try c w r
  Try-attempt c w h = subst (Try c w) h (attempt-Try c w (get c.name c.namespace w) refl)

  Written-of_Retried :
      (c : DnsClass) {w : World} {r : Reply}
      → Retried cluster (attempt cluster c) w r
      → Written c w (wrap_unless_not_found cluster r)
  Written-of_Retried c (last {w} {r} h) = Written-last c w r (Try-attempt c w h)
  Written-of_Retried c (again {w} h conflict rest) =
      retried (Try-attempt c w h) conflict (Written-of_Retried c rest)

  -- Where `RetryOnConflict` does as documented, `writeStatus` makes a run that `Written` describes,
  -- whatever the API server replies.
  pub write_status-Written :
      (documented : Documented cluster) (c : DnsClass) (w : World)
      → Written c w (write_status cluster c w)
  unfolding write_status
  write_status-Written documented c w =
      Written-of_Retried c (documented.retried (attempt cluster c) w)
