-- ===== src/Realtime/EventStream/Frames.antt =====
-- About a connection of the stream of events: the revisions of its frames, and what a write keeps of them.
use aquarium_controller.Prelude.{
  ℕ, zero, suc, ◌+◌, ◌≤◌, length-append, ◌≡◌, refl, sym, ap, ◌∙◌, subst, ◌⊎◌, inl, inr, true, false,
  not, ◌&&◌, List, [], ◌∷◌, ◌++◌, if_elim, leb, length, arith, &&-eq-true,
}
use mathlib.Core.List.{append-nil, append_assoc}
use aquarium_controller.Realtime.EventStream.{
  Frame, committed, resync_required, WriteEnd, taken, full, threw, Connection, close, after_write,
  is_empty, write, force_resync, enqueue,
}

abbrev pub revision_of : Frame → List ℕ
revision_of (committed e) = e.revision ∷ []
revision_of _ = []

abbrev pub revisions : List Frame → List ℕ
revisions [] = []
revisions (f ∷ rest) = revision_of f ++ revisions rest

-- The n numbers after `start`
abbrev pub upto : ℕ → ℕ → List ℕ
upto start zero = []
upto start (suc n) = suc start ∷ upto (suc start) n

pub revisions-append : (xs ys : List Frame) → revisions (xs ++ ys) ≡ revisions xs ++ revisions ys
revisions-append [] ys = refl
revisions-append (f ∷ rest) ys =
    ap (λ (x : List ℕ). revision_of f ++ x) (revisions-append rest ys)
    ∙ sym (append_assoc (revision_of f) (revisions rest) (revisions ys))

pub upto_snoc : (start n : ℕ) → upto start n ++ (suc (start + n) ∷ []) ≡ upto start (suc n)
upto_snoc start zero = ap (λ (k : ℕ). k ∷ []) (omega arith)
upto_snoc start (suc n) =
    ap (◌∷◌ (suc start))
      (ap (λ (k : ℕ). upto (suc start) n ++ (k ∷ [])) (omega arith) ∙ upto_snoc (suc start) n)

-- A first part of these numbers
pub upto_prefix :
    (start n : ℕ) (xs ys : List ℕ) → xs ++ ys ≡ upto start n → xs ≡ upto start (length xs)
upto_prefix start n [] ys e = refl
upto_prefix start zero (x ∷ xs) ys e = absurd (cc)
upto_prefix start (suc n) (x ∷ xs) ys e =
    let same : x ≡ suc start = cc in
    let rest : xs ++ ys ≡ upto (suc start) n = cc in
    let later = upto_prefix (suc start) n xs ys rest in cc

-- Closed: what was written are the revisions after `start`, and nothing waits.
pub record Shut (start : ℕ) (s : Connection) : Type 0 where
  pub is_closed : s.closed ≡ true
  pub emptied : s.queue ≡ []
  pub seen : revisions s.written ≡ upto start (length (revisions s.written))

-- Open: what was written and what waits are the revisions after `start` up to the current one, and at most `max` wait.
pub record Live (max start : ℕ) (s : Connection) : Type 0 where
  pub is_live : s.closed ≡ false
  pub small : length s.queue ≤ max
  pub count : ℕ
  pub order : revisions s.written ++ revisions s.queue ≡ upto start count
  pub level : start + count ≡ s.current_revision

abbrev pub Ordered : ℕ → ℕ → Connection → Type 0
Ordered max start s = Shut start s ⊎ Live max start s

close_lem :
    (s : Connection)
    → s.closed ≡ false
    → close s ≡ record s { closed = true; queue = []; live_buffer = [] }
unfolding close
close_lem s h = rw h refl

pub close-Shut :
    (start n : ℕ) (s : Connection) (ys : List ℕ)
    → s.closed ≡ false
    → revisions s.written ++ ys ≡ upto start n
    → Shut start (close s)
close-Shut start n s ys h e = subst (Shut start) (sym (close_lem s h)) (record {
  is_closed = refl;
  emptied = refl;
  seen = upto_prefix start n (revisions s.written) ys e;
})

pub closed_again : (start : ℕ) (s : Connection) → Shut start s → Shut start (close s)
unfolding close
closed_again start s h =
    if_elim (Shut start) {t = s.closed} {x = s} (λ _. h)
      (λ no'. absurd (let yes' = h.is_closed in cc))

after_write-Ordered :
    (max start n : ℕ) (e : WriteEnd) (s : Connection)
    → s.closed ≡ false
    → length s.queue ≤ max
    → revisions s.written ++ revisions s.queue ≡ upto start n
    → start + n ≡ s.current_revision
    → Ordered max start (after_write e s)
after_write-Ordered max start n taken s h small o l =
    inr (record { is_live = h; small = small; count = n; order = o; level = l })
after_write-Ordered max start n full s h small o l =
    inr (record { is_live = h; small = small; count = n; order = o; level = l })
after_write-Ordered max start n threw s h small o l =
    inl (close-Shut start n s (revisions s.queue) h o)

close-after_write-Shut :
    (start n : ℕ) (e : WriteEnd) (s : Connection) (ys : List ℕ)
    → s.closed ≡ false
    → revisions s.written ++ ys ≡ upto start n
    → Shut start (close (after_write e s))
close-after_write-Shut start n taken s ys h o =
    close-Shut start n (record s { blocked = false }) ys h o
close-after_write-Shut start n full s ys h o =
    close-Shut start n (record s { blocked = true }) ys h o
close-after_write-Shut start n threw s ys h o =
    closed_again start (close s) (close-Shut start n s ys h o)

empty_of_test : (queue : List Frame) → is_empty queue ≡ true → queue ≡ []
empty_of_test [] h = refl
empty_of_test (f ∷ rest) h = absurd (cc)

pushed_small :
    (max : ℕ) (f : Frame) (queue : List Frame)
    → leb max (length queue) ≡ false
    → length (queue ++ (f ∷ [])) ≤ max
pushed_small max f queue h = ground (arith, length-append queue (f ∷ []))

module _ (sink : ℕ → WriteEnd) (max : ℕ) (start : ℕ) where
  pub write-Ordered :
      (n : ℕ) (f : Frame) (s : Connection)
      → s.closed ≡ false
      → length s.queue ≤ max
      → revisions s.written ++ (revision_of f ++ revisions s.queue) ≡ upto start n
      → start + n ≡ s.current_revision
      → Ordered max start (write sink max f s)
  unfolding write
  write-Ordered n f s h small o l =
      after_write-Ordered max start n (sink (length s.written))
        (record s { written = s.written ++ (f ∷ []) }) h small
        (ap (λ (x : List ℕ). x ++ revisions s.queue) (revisions-append s.written (f ∷ []))
          ∙ ap (λ (x : List ℕ). (revisions s.written ++ x) ++ revisions s.queue)
              (append-nil (revision_of f))
          ∙ append_assoc (revisions s.written) (revision_of f) (revisions s.queue)
          ∙ o)
        l

  pub force_resync-Shut :
      (n earliest current : ℕ) (s : Connection) (ys : List ℕ)
      → s.closed ≡ false
      → revisions s.written ++ ys ≡ upto start n
      → Shut start (force_resync sink max earliest current s)
  unfolding force_resync write
  force_resync-Shut n earliest current s ys h o =
      let f = resync_required s.requested_revision earliest current in
      let t : Connection = record s { queue = []; written = s.written ++ (f ∷ []) } in
      let order : revisions t.written ++ ys ≡ upto start n =
        ap (λ (x : List ℕ). x ++ ys)
          (revisions-append s.written (f ∷ []) ∙ append-nil (revisions s.written))
        ∙ o in
      if_elim (Shut start) {t = s.closed} {x = s} (λ yes'. absurd (cc))
        (λ _. close-after_write-Shut start n (sink (length s.written)) t ys h order)

  pub enqueue-Ordered :
      (n : ℕ) (f : Frame) (s : Connection)
      → s.closed ≡ false
      → revisions s.written ++ (revisions s.queue ++ revision_of f) ≡ upto start n
      → start + n ≡ s.current_revision
      → Ordered max start (enqueue sink max f s)
  unfolding enqueue
  enqueue-Ordered n f s h o l =
      if_elim (Ordered max start) {t = s.closed} {x = s} (λ yes'. absurd (cc))
        (λ _.
          if_elim (Ordered max start) {t = not s.blocked && is_empty s.queue}
            {x = write sink max f s}
            (λ direct.
              let empty : s.queue ≡ [] =
                empty_of_test s.queue (&&-eq-true (not s.blocked) (is_empty s.queue) direct).1 in
              write-Ordered n f s h
                (subst (λ (q : List Frame). length q ≤ max) (sym empty) (omega arith))
                (subst
                  (λ (q : List Frame).
                    revisions s.written ++ (revision_of f ++ revisions q) ≡ upto start n)
                  (sym empty)
                  (ap (λ (x : List ℕ). revisions s.written ++ x) (append-nil (revision_of f))
                    ∙ subst
                        (λ (q : List Frame).
                          revisions s.written ++ (revisions q ++ revision_of f) ≡ upto start n)
                        empty o))
                l)
            (λ _.
              if_elim (Ordered max start) {t = leb max (length s.queue)}
                {x = force_resync sink max s.current_revision s.server_revision s}
                (λ _. inl (
                  force_resync-Shut n s.current_revision s.server_revision s
                    (revisions s.queue ++ revision_of f) h o))
                (λ room. inr (record {
                  is_live = h;
                  small = pushed_small max f s.queue room;
                  count = n;
                  order =
                      ap (λ (x : List ℕ). revisions s.written ++ x)
                        (revisions-append s.queue (f ∷ [])
                          ∙ ap (λ (x : List ℕ). revisions s.queue ++ x)
                              (append-nil (revision_of f)))
                      ∙ o;
                  level = l;
                }))))
