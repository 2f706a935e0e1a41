-- ===== src/Memory/View/Moves.antt =====
-- MOV_IN, MOV_OUT and page faults, one after another: a word that is stored stays until it is read,
-- in whatever frame its page then is.
use geck.Prelude.{
  ℕ, ◌+◌, ◌%◌, ◌≤◌, ◌≡◌, ◌≢◌, ◌==◌, ==_iff, Bool-cases, if◌then◌else◌, inl, inr, refl, sym, ap, ◌∙◌,
  subst, ℤ, pos, IsU32, Option, some, length, ◌>>=◌, arith,
}
use geck.Shared.{Pcb}
use geck.Shared.Wire.{word_bytes}
use geck.Memory.{MemoryConfig, Memory}
use geck.Memory.Store.{write_slice}
use geck.Memory.Access.Marks.{mark_used_lem}
use geck.Memory.Handlers.{
  mov_in, mov_out, mov_in_ok, mov_out_ok, solve_page_fault, attend_cpu, KernelReply,
}
use geck.Memory.Handlers.Moves.{write_word_in_range, write_word_slice}
use geck.Memory.View.{contents, Owners, HasOwner, HasClock, IsStore}
use geck.Memory.View.Clocks.{clock_pages_in}
use geck.Memory.View.Fault.{IsMissing, CanTake, answered, take-Chosen}
use geck.Memory.View.Write.{
  IsLoaded, address_split, resident, owner, stored, save_value-stored, stored-IsStore,
  contents-stored, contents-stored_other, contents-IsLoaded,
}
use geck.Memory.View.Read.{
  IsReadable, word_at, word_at-write_slice, word-IsReadable, marked, update_page_use-marked,
  marked-IsStore, contents-marked, read_value-marked,
}

module _ (c : MemoryConfig) (s : Memory) (g : Owners) where
  -- What MOV_OUT leaves.
  record Stored (segment_index : ℤ) (page n value : ℕ) (pid : ℤ) : Type 0 where
    after : Memory
    result : attend_cpu c (mov_out (pos n) value segment_index pid) s ≡ some (mov_out_ok, after)
    store : IsStore c after g
    changed :
        contents c after page
        ≡ (contents c s page >>= λ part. write_slice part (n % c.tam_pagina) (word_bytes value))
    same : (p : ℕ) → HasOwner g p → p ≢ page → contents c after p ≡ contents c s p

  mov_out-Stored :
      (segment_index : ℤ) (page n value : ℕ) (pid : ℤ)
      → IsStore c s g
      → IsLoaded c s g segment_index page n
      → Stored segment_index page n value pid
  unfolding attend_cpu
  mov_out-Stored segment_index page n value pid w h =
      let room : n + 4 ≤ length s.principal_memory = omega (
        arith,
        address_split n c.tam_pagina,
        h.fits,
        (resident c s g w segment_index page n h).frame_in,
      ) in
      let (bytes, written) = write_word_in_range n value s room in
      let slice = write_word_slice n value s bytes written in
      record {
        after = stored c s g w segment_index page n h value bytes slice;
        result = rw (save_value-stored c s g w segment_index page n h value bytes slice);
        store = stored-IsStore c s g w segment_index page n h value bytes slice;
        changed = contents-stored c s g w segment_index page n h value bytes slice;
        same = contents-stored_other c s g w segment_index page n h value bytes slice;
      }

  -- MOV_OUT changes one word of one page. In a store, for a page of the table that is in the frame
  -- of the address, and a word that ends inside the page: the request is answered, what it leaves is
  -- a store, and every page `p` of a process has the bytes that it had, but for that page, in whose
  -- bytes the word stands at the offset of the address.
  pub contents-mov_out :
      (segment_index : ℤ) (page n value : ℕ) (pid : ℤ)
      → IsStore c s g
      → IsLoaded c s g segment_index page n
      → (p : ℕ) → HasOwner g p
      → (t : Memory) × (attend_cpu c (mov_out (pos n) value segment_index pid) s
          ≡ some (mov_out_ok, t))
        × IsStore c t g
        × (contents c t p ≡ (
            if p == page
            then (contents c s p >>= λ part. write_slice part (n % c.tam_pagina) (word_bytes value))
            else contents c s p))
  contents-mov_out segment_index page n value pid w h p o =
      let a = mov_out-Stored segment_index page n value pid w h in
      (
        a.after,
        a.result,
        a.store,
        elim (Bool-cases (p == page)) [
          | inl here ↦ rw (here, (==_iff p page).0 here) a.changed
          | inr other ↦ rw other (a.same p o (λ e. cc (sym other, (==_iff p page).1 e)))
        ],
      )

  -- What MOV_IN leaves.
  record Fetched (pcb : Pcb) (segment_number page_number : ℤ) (page n value : ℕ) : Type 0 where
    after : Memory
    result :
        attend_cpu c (mov_in (pos n) pcb segment_number page_number) s
        ≡ some (mov_in_ok value, after)
    store : IsStore c after g
    same : (p : ℕ) → HasOwner g p → contents c after p ≡ contents c s p

  mov_in-Fetched :
      (pcb : Pcb) (segment_number page_number : ℤ) (page n value : ℕ)
      → IsStore c s g
      → IsReadable c s g pcb segment_number page_number page n
      → (contents c s page >>= word_at (n % c.tam_pagina)) ≡ some value
      → Fetched pcb segment_number page_number page n value
  unfolding attend_cpu
  mov_in-Fetched pcb segment_number page_number page n value w h word =
      let clock = w.clocks pcb.process_id h.active in
      let (rows, marks) =
        mark_used_lem h.row.frame_number clock.clock.frames_in_memory s.rows
          (clock_pages_in c s g w pcb.process_id clock) in
      record {
        after = marked c s g w pcb segment_number page_number page n h rows clock marks;
        result = rw (
          update_page_use-marked c s g w pcb segment_number page_number page n h rows clock marks,
          read_value-marked c s g w pcb segment_number page_number page n h rows clock marks,
          word,
        );
        store = marked-IsStore c s g w pcb segment_number page_number page n h rows clock marks;
        same = contents-marked c s g w pcb segment_number page_number page n h rows clock marks;
      }

-- Steps of the module that do not write to the page: page faults, whatever page leaves its frame,
-- MOV_INs, and MOV_OUTs to other pages.
pub data Steps (c : MemoryConfig) (g : Owners) (page : ℕ) : Memory → Memory → Type 0 where
  done : {s : Memory} → Steps c g page s s
  fault :
      {s t u : Memory} (pcb : Pcb) (segment_number page_number : ℤ) (missing : ℕ)
      (reply : KernelReply) (clock : HasClock c s g pcb.process_id)
      → IsMissing s g pcb segment_number page_number missing
      → CanTake c s g pcb.process_id clock
      → solve_page_fault c pcb segment_number page_number s ≡ some (reply, t)
      → Steps c g page t u
      → Steps c g page s u
  fetch :
      {s t u : Memory} (pcb : Pcb) (segment_number page_number : ℤ) (from n value : ℕ)
      → IsReadable c s g pcb segment_number page_number from n
      → attend_cpu c (mov_in (pos n) pcb segment_number page_number) s ≡ some (mov_in_ok value, t)
      → Steps c g page t u
      → Steps c g page s u
  store :
      {s t u : Memory} (segment_index : ℤ) (to n value : ℕ) (pid : ℤ)
      → IsLoaded c s g segment_index to n
      → page ≢ to
      → attend_cpu c (mov_out (pos n) value segment_index pid) s ≡ some (mov_out_ok, t)
      → Steps c g page t u
      → Steps c g page s u

module _ (c : MemoryConfig) (g : Owners) where
  same_state {ℓ} :
      {A : Type ℓ} {a b : A} {s t : Memory}
      → ◌≡◌ {A = Option (A × Memory)} (some (a, s)) (some (b, t))
      → s ≡ t
  same_state e = cc

  -- The steps leave a store, and the page as it was.
  record IsUnchanged (page : ℕ) (s u : Memory) : Type 0 where
    store : IsStore c u g
    same : contents c u page ≡ contents c s page

  -- One step before others.
  kept_by :
      (page : ℕ) (s t t' u : Memory)
      → t' ≡ t
      → IsStore c t' g
      → contents c t' page ≡ contents c s page
      → (IsStore c t g → IsUnchanged page t u)
      → IsUnchanged page s u
  kept_by page s t t' u e w same rest =
      let k = rest (subst (λ m. IsStore c m g) e w) in
      record { store = k.store; same = k.same ∙ ap (λ m. contents c m page) (sym e) ∙ same }

  Steps-IsUnchanged :
      (page : ℕ) (s u : Memory)
      → HasOwner g page
      → IsStore c s g
      → Steps c g page s u
      → IsUnchanged page s u
  Steps-IsUnchanged page s u o w done = record { store = w; same = refl }
  Steps-IsUnchanged page s u o w
        (fault {t = t} pcb segment_number page_number missing reply clock m can e rest) =
      let a =
        answered c s g pcb segment_number page_number missing m w
          (take-Chosen c s g pcb.process_id clock w can) in
      kept_by page s t a.after u (same_state (sym a.result ∙ e)) a.store (a.same page o)
        (λ w'. Steps-IsUnchanged page t u o w' rest)
  Steps-IsUnchanged page s u o w
        (fetch {t = t} pcb segment_number page_number from n value h e rest) =
      let (value', word) = word-IsReadable c s g w pcb segment_number page_number from n h in
      let a = mov_in-Fetched c s g pcb segment_number page_number from n value' w h word in
      kept_by page s t a.after u (same_state (sym a.result ∙ e)) a.store (a.same page o)
        (λ w'. Steps-IsUnchanged page t u o w' rest)
  Steps-IsUnchanged page s u o w (store {t = t} segment_index to n value pid h apart e rest) =
      let a = mov_out-Stored c s g segment_index to n value pid w h in
      kept_by page s t a.after u (same_state (sym a.result ∙ e)) a.store (a.same page o apart)
        (λ w'. Steps-IsUnchanged page t u o w' rest)

  -- A word that MOV_OUT has stored is what MOV_IN answers later. Between the two the module may
  -- solve page faults, in which the page may leave its frame and come into another, and serve MOV_INs
  -- and MOV_OUTs to other pages; the later address is one with the same offset in the frame that the
  -- page then has.
  pub mov_in-Steps-mov_out :
      (s t u : Memory) (segment_index : ℤ) (page n value : ℕ) (pid : ℤ) (pcb : Pcb)
      (segment_number page_number : ℤ) (later : ℕ)
      → IsStore c s g
      → IsLoaded c s g segment_index page n
      → IsU32 value
      → attend_cpu c (mov_out (pos n) value segment_index pid) s ≡ some (mov_out_ok, t)
      → Steps c g page t u
      → IsReadable c u g pcb segment_number page_number page later
      → later % c.tam_pagina ≡ n % c.tam_pagina
      → (after : Memory) × (attend_cpu c (mov_in (pos later) pcb segment_number page_number) u
          ≡ some (mov_in_ok value, after))
  mov_in-Steps-mov_out s t u segment_index page n value pid pcb segment_number page_number later w h
        small e steps r at =
      let a = mov_out-Stored c s g segment_index page n value pid w h in
      let o = owner c s g w segment_index page n h in
      let k =
        kept_by page a.after t a.after u (same_state (sym a.result ∙ e)) a.store refl
          (λ w'. Steps-IsUnchanged page t u o w' steps) in
      let (part, held, l) = contents-IsLoaded c s g w segment_index page n h in
      let bytes : contents c u page ≡ write_slice part (n % c.tam_pagina) (word_bytes value) =
        k.same
        ∙ a.changed
        ∙ ap (λ m. m >>= λ b. write_slice b (n % c.tam_pagina) (word_bytes value)) held in
      let word : (contents c u page >>= word_at (later % c.tam_pagina)) ≡ some value =
        rw (bytes, at)
          (word_at-write_slice part (n % c.tam_pagina) value (omega (arith, l, h.fits)) small) in
      let f = mov_in-Fetched c u g pcb segment_number page_number page later value k.store r word in
      (f.after, f.result)
