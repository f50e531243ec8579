-- ===== src/Store/Handle/Refused.antt =====
-- What a failed `Close` of internal/store/upload.go leaves in the catalog.
use xsync.Prelude.{◌≡◌, refl, ap, true, not, Option, none, some, if_intro, if◌then◌else◌}
use xsync.Prelude.Bytes.{Bytes}
use xsync.Prelude.Int.{pos, ◌-ℤ◌}
use xsync.Bolt.{Bolt}
use xsync.Model.{Upload}
use xsync.Store.Error.{Error, Result, ok, err}
use xsync.Store.Policy.{Policy}
use xsync.Store.Run.{Store}
use xsync.Store.Handle.{Os, Session, start_fresh}
use xsync.Store.Handle.Closing.{
  is_empty, is_incomplete, settle, interrupt_handle, fail_upload, publish_staged,
  settle_and_publish, close_unbroken, close_open, close, let_go,
}
use xsync.Store.Handle.Untouched.{
  Untouched, trans, OnFailure, always, OnFailure-err, OnFailure-trans, settle-store,
  start_fresh-Untouched, interrupt_handle-Untouched, fail_upload-Untouched,
  publish_staged-Untouched,
}

module _ ⦃bolt : Bolt⦄ (root : Bytes) (text : Error → Bytes) (sha : Bytes → Bytes)
    (policy : Bytes → Policy) where
  open bolt use {get}

  from_settle : (s t : Session) → t.store ≡ s.store → Untouched s t
  from_settle s t e = (ap (λ (a : Store). a.db.objects) e, ap (λ (a : Store). a.db.namespace) e)

  refused-Untouched :
      (os : Os) (u : Upload) (e : Error) (s t : Session)
      → Untouched s t
      → OnFailure (Untouched s) (fail_upload root text sha policy os u e t)
  refused-Untouched os u e s t h =
      always (Untouched s) (fail_upload root text sha policy os u e t) (
        trans s t (fail_upload root text sha policy os u e t).0 h
          (fail_upload-Untouched root text sha policy os u e t))

  interrupted-Untouched :
      (os : Os) (e : Error) (s t : Session)
      → Untouched s t
      → OnFailure (Untouched s) (interrupt_handle text os e t)
  interrupted-Untouched os e s t h =
      always (Untouched s) (interrupt_handle text os e t)
        (trans s t (interrupt_handle text os e t).0 h (interrupt_handle-Untouched root text os e t))

  settle_and_publish-Untouched :
      (os : Os) (s : Session)
      → OnFailure (Untouched s) (settle_and_publish root text sha policy os s)
  unfolding settle_and_publish
  settle_and_publish-Untouched os s = go (settle os s) (settle-store os s)
    where
      go :
          (x : Session × Result (Unit {0}))
          → x.0.store ≡ s.store
          → OnFailure (Untouched s) (elim x.1 [
            | err e ↦
                if is_incomplete e
                then interrupt_handle text os e x.0
                else fail_upload root text sha policy os x.0.h.upload e x.0
            | ok _ ↦ publish_staged root text sha policy os x.0
          ])
      go (t, err e) same =
          if_intro (OnFailure (Untouched s)) (is_incomplete e)
            (λ _. interrupted-Untouched os e s t (from_settle s t same))
            (λ _. refused-Untouched os t.h.upload e s t (from_settle s t same))
      go (t, ok _) same =
          OnFailure-trans s t (publish_staged root text sha policy os t) (from_settle s t same)
            (publish_staged-Untouched root text sha policy os t)

  close_unbroken-Untouched :
      (os : Os) (s : Session) → OnFailure (Untouched s) (close_unbroken root text sha policy os s)
  unfolding close_unbroken
  close_unbroken-Untouched os s =
      if_intro (OnFailure (Untouched s)) s.h.resolved (λ _. settle_and_publish-Untouched os s)
        (λ _.
          if_intro (OnFailure (Untouched s)) (not (is_empty s.h.candidates)) (λ _. tt)
            (λ _. go (start_fresh root text os s) (start_fresh-Untouched root text os s)))
    where
      go :
          (x : Session × Result (Unit {0}))
          → Untouched s x.0
          → OnFailure (Untouched s) (elim x.1 [
            | err e ↦ (x.0, err e)
            | ok _ ↦ settle_and_publish root text sha policy os x.0
          ])
      go (t, err e) h = h
      go (t, ok _) h =
          OnFailure-trans s t (settle_and_publish root text sha policy os t) h
            (settle_and_publish-Untouched os t)

  close_open-Untouched :
      (os : Os) (s : Session) → OnFailure (Untouched s) (close_open root text sha policy os s)
  unfolding close_open
  close_open-Untouched os s = go s.h.failed s.h.file
    where
      go :
          (f : Option Error) (file : Option Bytes)
          → OnFailure (Untouched s) (elim f [
            | none ↦ close_unbroken root text sha policy os s
            | some e ↦ elim file [
              | none ↦ (s, err e)
              | some name ↦
                  if s.h.fatal
                  then fail_upload root text sha policy os s.h.upload e s
                  else interrupt_handle text os e s
            ]
          ])
      go none file = close_unbroken-Untouched os s
      go (some e) none = (refl, refl)
      go (some e) (some name) =
          if_intro (OnFailure (Untouched s)) s.h.fatal
            (λ _. refused-Untouched os s.h.upload e s s (refl, refl))
            (λ _. interrupted-Untouched os e s s (refl, refl))

  close-OnFailure :
      (os : Os) (s : Session) → OnFailure (Untouched s) (close root text sha policy os s)
  unfolding close
  close-OnFailure os s =
      let s' : Session = record s { h = record s.h { closed = true } } in
      if_intro (OnFailure (Untouched s)) s.h.closed (λ _. tt)
        (λ _. go (close_open root text sha policy os s') (close_open-Untouched os s'))
    where
      go :
          (x : Session × Result (Unit {0}))
          → OnFailure (Untouched s) x
          → OnFailure
              (Untouched s)
              (record x.0 { inflight = x.0.inflight -ℤ pos 1; h = let_go x.0.h }, x.1)
      go (t, ok _) p = tt
      go (t, err e) p = p

  -- If `Close` returns an error, whatever went wrong, then every object of the catalog and every
  -- name is as it was: what stood under the path before is still there.
  pub close-Untouched :
      (os : Os) (s : Session) (e : Error)
      → (close root text sha policy os s).1 ≡ err e
      → Untouched s (close root text sha policy os s).0
  close-Untouched os s e q =
      OnFailure-err (Untouched s) (close root text sha policy os s) e q (close-OnFailure os s)
