-- ===== src/Netguard/Listener/Connections.antt =====
-- The counts of the listener of internal/netguard/netguard.go are those of the open connections.
use xsync.Prelude.{
  ℕ, zero, suc, ◌+◌, ◌≤◌, ◌<◌, ◌≡◌, ◌⊎◌, refl, sym, subst, ◌∙◌, ap, Bool, true, false, ◌&&◌, Option,
  none, some, List, [], ◌∷◌, ltb, if◌then◌else◌, if_intro, if_both, inl, inr, arith, ◌%◌, ◌^◌,
}
use xsync.Prelude.Bytes.{Bytes, bytes_eq, bytes_eq_iff}
use xsync.Prelude.Int.{ℤ, pos, ◌+ℤ◌, ◌-ℤ◌}
use xsync.Prelude.Assoc.{Assoc, lookup, insert, remove, lookup-insert, lookup-remove}
use xsync.Netguard.Listener.{
  Limits, Listener, new_listener, at_least, count_of, admit, leave, Conn, Accepted, accepted,
  accept, close_conn, Served, Event, arrive, hang_up, close_at, join, serve, serve_all,
}

-- The connections that are open,
abbrev pub open_conns : List Conn → ℕ
open_conns [] = 0
open_conns (c ∷ cs) = let n = open_conns cs in if c.done then n else suc n

-- and those of an address.
abbrev pub open_from : Bytes → List Conn → ℕ
open_from ip [] = 0
open_from ip (c ∷ cs) =
    let n = open_from ip cs in if c.done then n else if bytes_eq c.ip ip then suc n else n

-- The entry of an address in the table: there is one only while it has connections.
abbrev pub slot : ℕ → Option ℤ
slot zero = none
slot (suc n) = some (pos (suc n))

-- The listener counts `n` connections, `f ip` of them from `ip`.
record Counts (limits : Limits) (n : ℕ) (f : Bytes → ℕ) (l : Listener) : Type 0 where
  same : l.limits ≡ limits
  total : l.total ≡ pos n
  table : (ip : Bytes) → lookup ip l.per_ip ≡ slot (f ip)

Counts-ext :
    (limits : Limits) (n m : ℕ) (f g : Bytes → ℕ) (l : Listener)
    → n ≡ m
    → ((ip : Bytes) → f ip ≡ g ip)
    → Counts limits n f l
    → Counts limits m g l
Counts-ext limits n m f g l e h c = record {
  same = c.same;
  total = c.total ∙ ap pos e;
  table = λ ip. c.table ip ∙ ap slot (h ip);
}

count_of-slot : (m : Assoc ℤ) (ip : Bytes) (k : ℕ) → lookup ip m ≡ slot k → count_of m ip ≡ pos k
unfolding count_of
count_of-slot m ip zero e = ground (arith, e)
count_of-slot m ip (suc k) e = ground (arith, e)

pos_succ : (n : ℕ) → pos n +ℤ pos 1 ≡ pos (suc n)
unfolding ◌+ℤ◌
pos_succ n = ground arith

pos_pred : (n : ℕ) → pos (suc n) -ℤ pos 1 ≡ pos n
unfolding ◌-ℤ◌
pos_pred n = ground arith

-- One more from `ip`.
abbrev plus_one : Bytes → (Bytes → ℕ) → Bytes → ℕ
plus_one ip f j = if bytes_eq ip j then suc (f j) else f j

enter-Counts :
    (limits : Limits) (n : ℕ) (f : Bytes → ℕ) (l : Listener) (ip : Bytes)
    → Counts limits n f l
    → Counts limits (suc n) (plus_one ip f) (record l {
      per_ip = insert ip (count_of l.per_ip ip +ℤ pos 1) l.per_ip;
      total = l.total +ℤ pos 1;
    })
enter-Counts limits n f l ip c = record {
  same = c.same;
  total = ap (λ z. z +ℤ pos 1) c.total ∙ pos_succ n;
  table = λ j.
      let raised : count_of l.per_ip ip +ℤ pos 1 ≡ pos (suc (f ip)) =
        ap (λ z. z +ℤ pos 1) (count_of-slot l.per_ip ip (f ip) (c.table ip)) ∙ pos_succ (f ip) in
      lookup-insert ip j (count_of l.per_ip ip +ℤ pos 1) l.per_ip
      ∙ if_both (λ (o : Option ℤ) (m : ℕ). o ≡ slot m) (bytes_eq ip j)
          (λ e. ap some raised ∙ ap (λ i. slot (suc (f i))) ((bytes_eq_iff ip j).0 e))
          (λ e. c.table j);
}

-- The table after a count of `ip` has become `z`.
set_or_drop :
    (m : Assoc ℤ) (ip j : Bytes) (z : ℤ) (k : ℕ)
    → z ≡ pos k
    → lookup j (if at_least 1 z then insert ip z m else remove ip m)
      ≡ (if bytes_eq ip j then slot k else lookup j m)
unfolding at_least
set_or_drop m ip j z zero e =
    subst
      (λ y.
        lookup j (if at_least 1 y then insert ip y m else remove ip m)
        ≡ (if bytes_eq ip j then none else lookup j m))
      (sym e) (lookup-remove ip j m)
set_or_drop m ip j z (suc k) e =
    subst
      (λ y.
        lookup j (if at_least 1 y then insert ip y m else remove ip m)
        ≡ (if bytes_eq ip j then some (pos (suc k)) else lookup j m))
      (sym e) (ground (arith, lookup-insert ip j (pos (suc k)) m))

leave-Counts :
    (limits : Limits) (n : ℕ) (f : Bytes → ℕ) (l : Listener) (ip : Bytes)
    → Counts limits (suc n) (plus_one ip f) l
    → Counts limits n f (leave l ip)
unfolding leave
leave-Counts limits n f l ip c = record {
  same = c.same;
  total = ap (λ z. z -ℤ pos 1) c.total ∙ pos_pred n;
  table = λ j.
      let own : lookup ip l.per_ip ≡ slot (suc (f ip)) =
        c.table ip
        ∙ ap (λ b. slot (if b then suc (f ip) else f ip)) ((bytes_eq_iff ip ip).1 refl) in
      let lowered : count_of l.per_ip ip -ℤ pos 1 ≡ pos (f ip) =
        ap (λ z. z -ℤ pos 1) (count_of-slot l.per_ip ip (suc (f ip)) own) ∙ pos_pred (f ip) in
      set_or_drop l.per_ip ip j (count_of l.per_ip ip -ℤ pos 1) (f ip) lowered
      ∙ if_intro (λ o. o ≡ slot (f j)) (bytes_eq ip j)
          (λ e. ap (λ i. slot (f i)) ((bytes_eq_iff ip j).0 e))
          (λ e. c.table j ∙ ap (λ b. slot (if b then suc (f j) else f j)) e);
}

-- What is open, under the limits: a limit of 0 is none.
record Under (limits : Limits) (cs : List Conn) : Type 0 where
  all : 0 < limits.max_conns → open_conns cs ≤ limits.max_conns
  each : (ip : Bytes) → 0 < limits.max_conns_per_ip → open_from ip cs ≤ limits.max_conns_per_ip

record Sound (limits : Limits) (s : Served) : Type 0 where
  counts : Counts limits (open_conns s.conns) (λ ip. open_from ip s.conns) s.listener
  within : Under limits s.conns

-- A limit that was not reached.
not_at_least : (m k : ℕ) (z : ℤ) → (ltb 0 m && at_least m z) ≡ false → z ≡ pos k → 0 < m → k < m
unfolding at_least
not_at_least m k z e f h = ground (arith, e, f, h)

-- A peer that is admitted is counted, and fits under the limits. Another changes nothing.
admit-Sound :
    (limits : Limits) (l : Listener) (cs : List Conn) (ip : Bytes)
    → Sound limits (record { listener = l; conns = cs })
    → (let r = admit l ip in
        let new : Conn = record { ip = ip; done = false } in
        if r.1 then Sound limits (record { listener = r.0; conns = new ∷ cs }) else r.0 ≡ l)
unfolding admit
admit-Sound limits l cs ip s =
    let P : Listener × Bool → Type 0 = λ r.
      if r.1
      then Sound limits (record { listener = r.0; conns = record { ip = ip; done = false } ∷ cs })
      else r.0 ≡ l in
    if_intro P (ltb 0 l.limits.max_conns && at_least l.limits.max_conns l.total) (λ _. refl)
      (λ e.
        if_intro P
          (ltb 0 l.limits.max_conns_per_ip
            && at_least l.limits.max_conns_per_ip (count_of l.per_ip ip))
          (λ _. refl)
          (λ f. record {
            counts = enter-Counts limits (open_conns cs) (λ j. open_from j cs) l ip s.counts;
            within = record {
              all = λ h.
                  not_at_least limits.max_conns (open_conns cs) l.total
                    (subst
                      (λ (x : Limits). (ltb 0 x.max_conns && at_least x.max_conns l.total) ≡ false)
                      s.counts.same e)
                    s.counts.total h;
              each = λ j h.
                  if_intro (λ (n : ℕ). n ≤ limits.max_conns_per_ip) (bytes_eq ip j)
                    (λ same.
                      subst (λ i. suc (open_from i cs) ≤ limits.max_conns_per_ip)
                        ((bytes_eq_iff ip j).0 same)
                        (not_at_least limits.max_conns_per_ip (open_from ip cs)
                          (count_of l.per_ip ip)
                          (subst
                            (λ (x : Limits).
                              (ltb 0 x.max_conns_per_ip
                                && at_least x.max_conns_per_ip (count_of l.per_ip ip))
                              ≡ false)
                            s.counts.same f)
                          (count_of-slot l.per_ip ip (open_from ip cs) (s.counts.table ip)) h))
                    (λ _. s.within.each j h);
            };
          }))

accept-Sound :
    (limits : Limits) (l : Listener) (peers : List (Option Bytes)) (cs : List Conn)
    → Sound limits (record { listener = l; conns = cs })
    → (let r = accept l peers in Sound limits (record { listener = r.0; conns = join r.1 cs }))
unfolding accept join
accept-Sound limits l [] cs s = s
accept-Sound limits l (none ∷ peers) cs s = s
accept-Sound limits l (some ip ∷ peers) cs s =
    go (admit l ip) (admit-Sound limits l cs ip s) (λ l' e.
      accept-Sound limits (record l' { rejected = (l'.rejected + 1) % 2 ^ 64 }) peers cs
        (let t : Sound limits (record { listener = l'; conns = cs }) =
            subst (λ m. Sound limits (record { listener = m; conns = cs })) (sym e) s in
          record {
            counts = record {
              same = t.counts.same;
              total = t.counts.total;
              table = t.counts.table;
            };
            within = t.within;
          }))
  where
    go :
        (r : Listener × Bool)
        → (if r.1
            then Sound limits
                (record { listener = r.0; conns = record { ip = ip; done = false } ∷ cs })
            else r.0 ≡ l)
        → ((l' : Listener)
            → l' ≡ l
            → (let q = accept (record l' { rejected = (l'.rejected + 1) % 2 ^ 64 }) peers in
                Sound limits (record { listener = q.0; conns = join q.1 cs })))
        → (let rest = accept (record r.0 { rejected = (r.0.rejected + 1) % 2 ^ 64 }) peers in
            let q : Listener × Accepted × List (Option Bytes) =
              if r.1 then (r.0, accepted (record { ip = ip; done = false }), peers) else rest in
            Sound limits (record { listener = q.0; conns = join q.1 cs }))
    go (l', true) h rest = h
    go (l', false) h rest = rest l' h

-- Closing a connection behind `x` others, `g ip` of them from `ip`.
close_at-Counts :
    (limits : Limits) (x : ℕ) (g : Bytes → ℕ) (l : Listener) (n : ℕ) (cs : List Conn)
    → Counts limits (x + open_conns cs) (λ ip. g ip + open_from ip cs) l
    → (let r = close_at l n cs in
        Counts limits (x + open_conns r.1) (λ ip. g ip + open_from ip r.1) r.0)
unfolding close_at close_conn
close_at-Counts limits x g l n [] c = c
close_at-Counts limits x g l zero (c ∷ cs) k =
    let P : Listener × Conn → Type 0 =
      λ r. Counts limits (x + open_conns (r.1 ∷ cs)) (λ ip. g ip + open_from ip (r.1 ∷ cs)) r.0 in
    if_intro P c.done (λ _. k)
      (λ e.
        leave-Counts limits (x + open_conns cs) (λ ip. g ip + open_from ip cs) l c.ip
          (Counts-ext limits (x + open_conns (c ∷ cs)) (suc (x + open_conns cs))
            (λ ip. g ip + open_from ip (c ∷ cs)) (plus_one c.ip (λ ip. g ip + open_from ip cs)) l
            (ground (arith, e)) (λ ip. ground (arith, e)) k))
close_at-Counts limits x g l (suc n) (c ∷ cs) k =
    let x' = if c.done then x else suc x in
    let g' : Bytes → ℕ =
      λ ip. if c.done then g ip else if bytes_eq c.ip ip then suc (g ip) else g ip in
    let r = close_at l n cs in
    Counts-ext limits (x' + open_conns r.1) (x + open_conns (c ∷ r.1))
      (λ ip. g' ip + open_from ip r.1) (λ ip. g ip + open_from ip (c ∷ r.1)) r.0 (ground arith)
      (λ ip. ground arith)
      (close_at-Counts limits x' g' l n cs (
        Counts-ext limits (x + open_conns (c ∷ cs)) (x' + open_conns cs)
          (λ ip. g ip + open_from ip (c ∷ cs)) (λ ip. g' ip + open_from ip cs) l (ground arith)
          (λ ip. ground arith) k))

-- It opens none.
close_at-fewer :
    (l : Listener) (n : ℕ) (cs : List Conn)
    → (let r = close_at l n cs in
        (open_conns r.1 ≤ open_conns cs) × ((ip : Bytes) → open_from ip r.1 ≤ open_from ip cs))
unfolding close_at close_conn
close_at-fewer l n [] = (omega arith, λ ip. omega arith)
close_at-fewer l zero (c ∷ cs) = (ground arith, λ ip. ground arith)
close_at-fewer l (suc n) (c ∷ cs) =
    let (all, each) = close_at-fewer l n cs in (ground (arith, all), λ ip. ground (arith, each ip))

close_at-Sound :
    (limits : Limits) (l : Listener) (n : ℕ) (cs : List Conn)
    → Sound limits (record { listener = l; conns = cs })
    → (let r = close_at l n cs in Sound limits (record { listener = r.0; conns = r.1 }))
close_at-Sound limits l n cs s =
    let r = close_at l n cs in
    let (all, each) = close_at-fewer l n cs in
    let k =
      close_at-Counts limits 0 (λ ip. 0) l n cs
        (Counts-ext limits (open_conns cs) (0 + open_conns cs) (λ ip. open_from ip cs)
          (λ ip. 0 + open_from ip cs) l (omega arith) (λ ip. omega arith) s.counts) in
    record {
      counts =
          Counts-ext limits (0 + open_conns r.1) (open_conns r.1) (λ ip. 0 + open_from ip r.1)
            (λ ip. open_from ip r.1) r.0 (omega arith) (λ ip. omega arith) k;
      within = record {
        all = λ h. omega (arith, all, s.within.all h);
        each = λ ip h. omega (arith, each ip, s.within.each ip h);
      };
    }

serve_all-Sound :
    (limits : Limits) (es : List Event) (s : Served)
    → Sound limits s
    → Sound limits (serve_all es s)
unfolding serve_all serve
serve_all-Sound limits [] s k = k
serve_all-Sound limits (arrive peers ∷ es) s k =
    serve_all-Sound limits es (serve (arrive peers) s)
      (accept-Sound limits s.listener peers s.conns k)
serve_all-Sound limits (hang_up n ∷ es) s k =
    serve_all-Sound limits es (serve (hang_up n) s) (close_at-Sound limits s.listener n s.conns k)

-- A listener that has accepted nothing.
abbrev pub fresh : Limits → Served
fresh limits = record { listener = new_listener limits; conns = [] }

fresh-Sound : (limits : Limits) → Sound limits (fresh limits)
unfolding new_listener lookup
fresh-Sound limits = record {
  counts = record { same = refl; total = refl; table = λ ip. refl };
  within = record { all = λ h. omega arith; each = λ ip h. omega arith };
}

or_unlimited : (m k : ℕ) → (0 < m → k ≤ m) → (m ≡ 0) ⊎ (k ≤ m)
or_unlimited zero k h = inl refl
or_unlimited (suc m) k h = inr (h (omega arith))

-- There is no limit, or it is kept.
pub record IsWithin (limits : Limits) (cs : List Conn) : Type 0 where
  pub all : (limits.max_conns ≡ 0) ⊎ (open_conns cs ≤ limits.max_conns)
  pub each :
      (ip : Bytes) → (limits.max_conns_per_ip ≡ 0) ⊎ (open_from ip cs ≤ limits.max_conns_per_ip)

-- Whatever peers arrive and however connections are closed, also more than once: the open
-- connections stay within both limits, `Active` is their number, and the table has an entry for
-- exactly the addresses that have an open connection, with their number.
pub serve_all-IsWithin :
    (limits : Limits) (es : List Event)
    → (let s = serve_all es (fresh limits) in
        IsWithin limits s.conns
        × (s.listener.total ≡ pos (open_conns s.conns))
        × ((ip : Bytes) → lookup ip s.listener.per_ip ≡ slot (open_from ip s.conns)))
serve_all-IsWithin limits es =
    let k = serve_all-Sound limits es (fresh limits) (fresh-Sound limits) in
    let within : IsWithin limits (serve_all es (fresh limits)).conns = record {
      all =
          or_unlimited limits.max_conns (open_conns (serve_all es (fresh limits)).conns)
            k.within.all;
      each = λ ip.
          or_unlimited limits.max_conns_per_ip (open_from ip (serve_all es (fresh limits)).conns)
            (k.within.each ip);
    } in
    (within, k.counts.total, k.counts.table)
