-- ===== src/Ftp/Server/Shutdown.antt =====
-- What the shutdown does with the clients in the list.
use mathlib.Core.Path.{subst}
use vitacompanion_vitadeck.Prelude.{
  ℕ, zero, suc, ◌≤◌, ◌≡◌, refl, ap, ◌∙◌, ◌||◌, ◌==◌, pos, negsuc, Bool-cases, inl, inr, append-nil,
  snoc-append, Bool, true, false, not, ◌&&◌, List, [], ◌∷◌, ◌++◌, ℤ, is_negative, length, arith,
}
use vitacompanion_vitadeck.Ftp.Server.{
  Client, EndCall, lock_list, unlock_list, abort_receive, abort, detach, wait_thread, empty_list,
  zero_clients, clear_transfer, abort_data, detach_clients, join_threads, client_list_thread_end,
}

-- Where the shutdown stands: whether it holds the mutex, the threads whose clients it has detached,
-- those that have ended and those that are deleted, and which shared variables it has reset.
pub record Progress : Type 0 where
  pub locked : Bool
  pub detached : List ℤ
  pub ended : List ℤ
  pub deleted : List ℤ
  pub list_empty : Bool
  pub no_clients : Bool
  pub no_transfer : Bool

-- What a call does to it. A thread that is waited for ends, since its client is detached.
pub progress : EndCall → Progress → Progress
progress lock_list p = record p { locked = true }
progress unlock_list p = record p { locked = false }
progress (detach thid) p = record p { detached = p.detached ++ (thid ∷ []) }
progress (wait_thread thid) p = record p { ended = p.ended ++ (thid ∷ []) }
progress (EndCall.delete_thread thid) p = record p { deleted = p.deleted ++ (thid ∷ []) }
progress empty_list p = record p { list_empty = true }
progress zero_clients p = record p { no_clients = true }
progress clear_transfer p = record p { no_transfer = true }
progress _ p = p

pub after : List EndCall → Progress → Progress
after [] p = p
after (call ∷ calls) p = after calls (progress call p)

abbrev is_same : ℤ → ℤ → Bool
is_same (pos m) (pos n) = m == n
is_same (negsuc m) (negsuc n) = m == n
is_same _ _ = false

pub is_among : ℤ → List ℤ → Bool
is_among thid [] = false
is_among thid (t ∷ ts) = is_same thid t || is_among thid ts

is_among-snoc : (thid : ℤ) (ts : List ℤ) → is_among thid (ts ++ (thid ∷ [])) ≡ true
unfolding is_among
is_among-snoc (pos n) [] = ground arith
is_among-snoc (negsuc n) [] = ground arith
is_among-snoc thid (t ∷ ts) = elim (Bool-cases (is_same thid t)) [
  | inl same ↦ rw same refl
  | inr other ↦ rw other (is_among-snoc thid ts)
]

-- A client's thread needs the mutex to end, so a wait must not hold it; a thread is only deleted when it
-- has ended; the list and the variables of the clients are only changed under the mutex.
abbrev is_allowed : EndCall → Progress → Bool
is_allowed (wait_thread thid) p = not p.locked
is_allowed (EndCall.delete_thread thid) p = is_among thid p.ended
is_allowed (detach thid) p = p.locked
is_allowed empty_list p = p.locked
is_allowed zero_clients p = p.locked
is_allowed clear_transfer p = p.locked
is_allowed (abort_receive fd) p = p.locked
is_allowed (abort fd) p = p.locked
is_allowed lock_list p = not p.locked
is_allowed unlock_list p = p.locked

pub all_allowed : List EndCall → Progress → Bool
unfolding progress
all_allowed [] p = true
all_allowed (call ∷ calls) p = is_allowed call p && all_allowed calls (progress call p)

abbrev pub thids : List Client → List ℤ
thids [] = []
thids (c ∷ clients) = c.thid ∷ thids clients

after-append : (xs ys : List EndCall) (p : Progress) → after (xs ++ ys) p ≡ after ys (after xs p)
unfolding after
after-append [] ys p = refl
after-append (x ∷ xs) ys p = after-append xs ys (progress x p)

all_allowed-append :
    (xs ys : List EndCall) (p : Progress)
    → all_allowed (xs ++ ys) p ≡ all_allowed xs p && all_allowed ys (after xs p)
unfolding after all_allowed
all_allowed-append [] ys p = refl
all_allowed-append (x ∷ xs) ys p = let ih = all_allowed-append xs ys (progress x p) in ground arith

-- The calls are allowed and lead from one state to another.
record Leads (calls : List EndCall) (p q : Progress) : Type 0 where
  allowed : all_allowed calls p ≡ true
  reaches : after calls p ≡ q

Leads-append :
    (xs ys : List EndCall) (p q r : Progress) → Leads xs p q → Leads ys q r → Leads (xs ++ ys) p r
Leads-append xs ys p q r a b = record {
  allowed =
      all_allowed-append xs ys p
      ∙ (let e = a.reaches in let h = a.allowed in let k = b.allowed in rw (h, e) k);
  reaches = after-append xs ys p ∙ ap (λ (s : Progress). after ys s) a.reaches ∙ b.reaches;
}

abort_data-Leads : (c : Client) (p : Progress) → p.locked ≡ true → Leads (abort_data c) p p
unfolding after all_allowed progress
abort_data-Leads c p held = record { allowed = ground arith; reaches = ground arith }

-- One allowed call.
Leads-one :
    (call : EndCall) (p : Progress)
    → is_allowed call p ≡ true
    → Leads (call ∷ []) p (progress call p)
unfolding after all_allowed
Leads-one call p h = record { allowed = ground (arith, h); reaches = refl }

Leads-nil : (p q : Progress) → p ≡ q → Leads [] p q
unfolding after all_allowed
Leads-nil p q e = record { allowed = refl; reaches = e }

detach_clients-Leads :
    (left : ℕ) (clients : List Client) (p : Progress)
    → length clients ≤ left
    → p.locked ≡ true
    → Leads (detach_clients left clients).0 p (record p { detached = p.detached ++ thids clients })
      × ((detach_clients left clients).1 ≡ thids clients)
unfolding detach_clients progress
detach_clients-Leads zero [] p short held = (Leads-nil p _ (rw (append-nil p.detached) refl), refl)
detach_clients-Leads zero (c ∷ clients) p short held = absurd (omega arith)
detach_clients-Leads (suc left) [] p short held =
    (Leads-nil p _ (rw (append-nil p.detached) refl), refl)
detach_clients-Leads (suc left) (c ∷ clients) p short held =
    let q = record p { detached = p.detached ++ (c.thid ∷ []) } in
    let (calls, thids') = detach_clients left clients in
    let (rest, same) = detach_clients-Leads left clients q (omega arith) held in
    let end = record p { detached = p.detached ++ thids (c ∷ clients) } in
    let rest' : Leads calls q end =
      subst (λ ts. Leads calls q (record p { detached = ts }))
        (snoc-append p.detached c.thid (thids clients)) rest in
    (
      Leads-append (abort_receive c.ctrl_sockfd ∷ []) (abort_data c ++ (detach c.thid ∷ calls)) p p
          end (Leads-one (abort_receive c.ctrl_sockfd) p held)
          (Leads-append (abort_data c) (detach c.thid ∷ calls) p p end (abort_data-Leads c p held) (
            Leads-append (detach c.thid ∷ []) calls p q end (Leads-one (detach c.thid) p held)
              rest')),
      ap (λ ts. c.thid ∷ ts) same,
    )

join_threads-Leads :
    (ts : List ℤ) (p : Progress)
    → p.locked ≡ false
    → Leads (join_threads ts) p (record p { ended = p.ended ++ ts; deleted = p.deleted ++ ts })
unfolding join_threads progress
join_threads-Leads [] p free = Leads-nil p _ (rw (append-nil p.ended, append-nil p.deleted) refl)
join_threads-Leads (t ∷ ts) p free =
    let q = record p { ended = p.ended ++ (t ∷ []) } in
    let r = record q { deleted = p.deleted ++ (t ∷ []) } in
    let end = record p { ended = p.ended ++ (t ∷ ts); deleted = p.deleted ++ (t ∷ ts) } in
    let rest : Leads (join_threads ts) r end =
      subst
        (λ ds. Leads (join_threads ts) r (record p { ended = p.ended ++ (t ∷ ts); deleted = ds }))
        (snoc-append p.deleted t ts)
        (subst
          (λ es.
            Leads (join_threads ts) r
              (record p { ended = es; deleted = (p.deleted ++ (t ∷ [])) ++ ts }))
          (snoc-append p.ended t ts) (join_threads-Leads ts r free)) in
    Leads-append (wait_thread t ∷ []) (EndCall.delete_thread t ∷ join_threads ts) p q end
      (Leads-one (wait_thread t) p (rw free refl))
      (Leads-append (EndCall.delete_thread t ∷ []) (join_threads ts) q r end
        (Leads-one (EndCall.delete_thread t) q (is_among-snoc t p.ended)) rest)

abbrev pub at_rest : Progress
at_rest = record {
  locked = false;
  detached = [];
  ended = [];
  deleted = [];
  list_empty = false;
  no_clients = false;
  no_transfer = false;
}

-- With the mutex and at most eight clients in the list, the shutdown detaches each of them and resets
-- the list, the count and `transfer_active` under the mutex, and then waits for each of their threads and
-- deletes it, once and in the order of the list, each only after it has ended. It never waits while it
-- holds the mutex, aborts and detaches only while it does, and gives it back.
pub client_list_thread_end-all :
    (client_list_mtx : ℤ) (clients : List Client)
    → is_negative client_list_mtx ≡ false
    → length clients ≤ 8
    → let calls = client_list_thread_end client_list_mtx clients in
      (all_allowed calls at_rest ≡ true)
      × (after calls at_rest ≡ record {
        locked = false;
        detached = thids clients;
        ended = thids clients;
        deleted = thids clients;
        list_empty = true;
        no_clients = true;
        no_transfer = true;
      })
unfolding client_list_thread_end progress
client_list_thread_end-all client_list_mtx clients there short =
    let ts = thids clients in
    let locked = record at_rest { locked = true } in
    let detached = record locked { detached = ts } in
    let emptied = record detached { list_empty = true } in
    let zeroed = record emptied { no_clients = true } in
    let cleared = record zeroed { no_transfer = true } in
    let unlocked = record cleared { locked = false } in
    let end = record unlocked { ended = ts; deleted = ts } in
    let (detaching, same) = detach_clients-Leads 8 clients locked short refl in
    let all : Leads (client_list_thread_end client_list_mtx clients) at_rest end =
      rw (there, same)
        (Leads-append (lock_list ∷ []) _ at_rest locked end (Leads-one lock_list at_rest refl) (
          Leads-append (detach_clients 8 clients).0 _ locked detached end detaching (
            Leads-append (empty_list ∷ []) _ detached emptied end
              (Leads-one empty_list detached refl)
              (Leads-append (zero_clients ∷ []) _ emptied zeroed end
                (Leads-one zero_clients emptied refl)
                (Leads-append (clear_transfer ∷ []) _ zeroed cleared end
                  (Leads-one clear_transfer zeroed refl)
                  (Leads-append (unlock_list ∷ []) (join_threads ts) cleared unlocked end
                    (Leads-one unlock_list cleared refl)
                    (join_threads-Leads ts unlocked refl))))))) in
    (all.allowed, all.reaches)
