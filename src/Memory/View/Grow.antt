-- ===== src/Memory/View/Grow.antt =====
-- The pages of a new process: `init_process_structures` of memoria/src/memoria.c on a store.
use geck.Prelude.{
  ℕ, suc, ◌+◌, ◌<◌, ◌≡◌, ◌≢◌, ◌⊎◌, inl, inr, refl, sym, ap, ◌∙◌, subst, ℤ, pos, negsuc, eqb_ℤ, [],
  ◌∷◌, ◌++◌, true, false, ◌||◌, Bool-cases, some, none, ltb, length, length-append, length-set,
  get_elem?, get_elem?-lt, get_elem?-append, get_elem?-last, get_elem?-set_self, get_elem?-set_ne,
  set, if◌then◌else◌, pos_same, arith,
}
use native.Mathlib.Decide.{ℕ_discrete}
use geck.Memory.{MemoryConfig, PageRow, Memory}
use geck.Memory.Bitmap.Free.{free_in, find_page_free_count}
use geck.Memory.Tables.{build_row}
use geck.Memory.Handlers.PageFault.{set_bit_lem}
use geck.Memory.View.{Owners, HasOwner, IsPages, IsPage, IsStore}
use geck.Memory.View.Change.{same_row}
use geck.Memory.View.Choose.{frame_fits, not_both}
use geck.Memory.View.Extend.{Extends, Extends-trans, IsPage-Extends, HasClock-Extends}

-- The rows from one address to another are a process's, and it lives.
abbrev pub grown : Owners → ℤ → ℕ → ℕ → Owners
grown g pid from to = record {
  owner = λ p. if ltb p from then g.owner p else if ltb p to then some pid else none;
  active = λ q. eqb_ℤ pid q || g.active q;
}

-- The list of the tables and its counter are the same.
abbrev pub SameTables : Memory → Memory → Type 0
SameTables s t =
    (t.all_page_tables ≡ s.all_page_tables) × (t.page_tables_counter ≡ s.page_tables_counter)

module _ (g : Owners) (pid : ℤ) (from to : ℕ) where
  -- One row more.
  grown_more :
      (p : ℕ) → HasOwner (grown g pid from (suc to)) p → (p ≡ to) ⊎ HasOwner (grown g pid from to) p
  grown_more p (q, e) = elim (Bool-cases (ltb p from)) [
    | inl old ↦ inr (q, rw old (rw old at e))
    | inr new ↦ elim (Bool-cases (ltb p to)) [
      | inl inside ↦ inr (pid, rw (new, inside) refl)
      | inr outside ↦ elim (Bool-cases (ltb p (suc to))) [
        | inl last ↦ inl (ground arith)
        | inr beyond ↦ absurd (cc (rw (new, beyond) at e))
      ]
    ]
  ]

  grown_same :
      (p : ℕ)
      → HasOwner (grown g pid from to) p
      → (grown g pid from (suc to)).owner p ≡ (grown g pid from to).owner p
  grown_same p (q, e) = elim (Bool-cases (ltb p from)) [
    | inl old ↦ rw old refl
    | inr new ↦ elim (Bool-cases (ltb p to)) [
      | inl inside ↦ let more : ltb p (suc to) ≡ true = ground arith in rw (new, inside, more) refl
      | inr outside ↦ absurd (cc (rw (new, outside) at e))
    ]
  ]

module _ (c : MemoryConfig) (g : Owners) (pid : ℤ) (from : ℕ) where
  abbrev pub IsGrown : Memory → Type 0
  IsGrown s = IsStore c s (grown g pid from (length s.rows))

  -- A state with `n` pages more of the process.
  pub record Grown (s t : Memory) (n : ℕ) : Type 0 where
    pub extends : Extends s t
    pub store : IsGrown t
    pub more : length t.rows ≡ length s.rows + n
    pub fewer : free_in c t.bitmap_swap + n ≡ free_in c s.bitmap_swap

  pub Grown-trans : (s t u : Memory) (m n : ℕ) → Grown s t m → Grown t u n → Grown s u (m + n)
  Grown-trans s t u m n h k = record {
    extends = Extends-trans s t u h.extends k.extends;
    store = k.store;
    more = omega (arith, h.more, k.more);
    fewer = omega (arith, h.fewer, k.fewer);
  }

  abbrev fresh_row : ℕ → PageRow
  fresh_row n = record {
    frame_number = negsuc 0;
    swap_position = pos n;
    presence = false;
    use_bit = false;
    modified = false;
  }

  module _ (s : Memory) (w : IsGrown s) (n : ℕ)
      (clean : get_elem? s.bitmap_swap n ≡ some false) where
    abbrev to : ℕ
    to = length s.rows

    -- The state with a row for the place `n` of the swap file.
    abbrev built : Memory
    built = record s { rows = s.rows ++ (fresh_row n ∷ []); bitmap_swap = set s.bitmap_swap n true }

    built-Extends : Extends s built
    built-Extends = record {
      rows_kept = λ p a e. get_elem?-append s.rows (fresh_row n ∷ []) p a e;
      memory_same = refl;
      file_same = refl;
      bits_same = refl;
      swap_kept = λ m e. elim (ℕ_discrete n m) [
        | yes here ↦
            subst (λ k. get_elem? (set s.bitmap_swap n true) k ≡ some true) here
              (get_elem?-set_self s.bitmap_swap n true (get_elem?-lt s.bitmap_swap n false clean))
        | no there ↦ get_elem?-set_ne s.bitmap_swap n m true there ∙ e
      ];
      swap_length = length-set s.bitmap_swap n true;
    }

    new_in : get_elem? built.rows to ≡ some (fresh_row n)
    new_in = get_elem?-last s.rows (fresh_row n)

    new-IsPage : IsPage c built to
    new-IsPage = record {
      row = fresh_row n;
      position = n;
      row_in = new_in;
      position_eq = refl;
      position_in =
          frame_fits c.tam_pagina n (length s.bitmap_swap) (length s.swap_file)
            (get_elem?-lt s.bitmap_swap n false clean) w.swap_sized;
      swap_bit = get_elem?-set_self s.bitmap_swap n true (get_elem?-lt s.bitmap_swap n false clean);
      place = inl refl;
    }

    -- A page that was there has its row still, and its place is not the new one.
    old_row :
        (p : ℕ) (a : PageRow)
        → HasOwner (grown g pid from to) p
        → get_elem? built.rows p ≡ some a
        → (get_elem? s.rows p ≡ some a) × (a.swap_position ≢ pos n)
    old_row p a o e =
        let x = w.mapped.pages p o in
        let here : x.row ≡ a =
          same_row built.rows p x.row a
            (get_elem?-append s.rows (fresh_row n ∷ []) p x.row x.row_in) e in
        (
          x.row_in ∙ ap some here,
          λ same.
              not_both s.bitmap_swap x.position n x.swap_bit clean
                (pos_same (sym x.position_eq ∙ ap (λ (y : PageRow). y.swap_position) here ∙ same)),
        )

    built-IsPages : IsPages c built (grown g pid from (suc to))
    built-IsPages = record {
      pages = λ p o. elim (grown_more g pid from to p o) [
        | inl here ↦ subst (IsPage c built) (sym here) new-IsPage
        | inr old ↦ IsPage-Extends c s built built-Extends p (w.mapped.pages p old)
      ];
      swap_apart = λ p q a b o o' e e' same.
          swap_apart_built p q a b (grown_more g pid from to p o) (grown_more g pid from to q o') e
            e' same;
      frame_apart = λ p q a b o o' e e' ha hb same.
          frame_apart_built p q a b (grown_more g pid from to p o) (grown_more g pid from to q o') e
            e' ha hb same;
    }
      where
        at_last : (p : ℕ) (a : PageRow) → p ≡ to → get_elem? built.rows p ≡ some a → fresh_row n ≡ a
        at_last p a here e =
            same_row built.rows to (fresh_row n) a new_in
              (subst (λ k. get_elem? built.rows k ≡ some a) here e)

        swap_apart_built :
            (p q : ℕ) (a b : PageRow)
            → ((p ≡ to) ⊎ HasOwner (grown g pid from to) p)
            → ((q ≡ to) ⊎ HasOwner (grown g pid from to) q)
            → get_elem? built.rows p ≡ some a
            → get_elem? built.rows q ≡ some b
            → a.swap_position ≡ b.swap_position
            → p ≡ q
        swap_apart_built p q a b (inl x) (inl y) e e' same = x ∙ sym y
        swap_apart_built p q a b (inl x) (inr o) e e' same = absurd (
            (old_row q b o e').1
              (sym same ∙ sym (ap (λ (y : PageRow). y.swap_position) (at_last p a x e))))
        swap_apart_built p q a b (inr o) (inl y) e e' same = absurd (
            (old_row p a o e).1
              (same ∙ sym (ap (λ (z : PageRow). z.swap_position) (at_last q b y e'))))
        swap_apart_built p q a b (inr o) (inr o') e e' same =
            w.mapped.swap_apart p q a b o o' (old_row p a o e).0 (old_row q b o' e').0 same

        frame_apart_built :
            (p q : ℕ) (a b : PageRow)
            → ((p ≡ to) ⊎ HasOwner (grown g pid from to) p)
            → ((q ≡ to) ⊎ HasOwner (grown g pid from to) q)
            → get_elem? built.rows p ≡ some a
            → get_elem? built.rows q ≡ some b
            → a.presence ≡ true
            → b.presence ≡ true
            → a.frame_number ≡ b.frame_number
            → p ≡ q
        frame_apart_built p q a b (inl x) o e e' ha hb same =
            absurd (cc (ap (λ (y : PageRow). y.presence) (at_last p a x e), ha))
        frame_apart_built p q a b (inr o) (inl y) e e' ha hb same =
            absurd (cc (ap (λ (z : PageRow). z.presence) (at_last q b y e'), hb))
        frame_apart_built p q a b (inr o) (inr o') e e' ha hb same =
            w.mapped.frame_apart p q a b o o' (old_row p a o e).0 (old_row q b o' e').0 ha hb same

    built_length : length built.rows ≡ suc to
    built_length = omega (arith, length-append s.rows (fresh_row n ∷ []))

    built-IsStore : IsGrown built
    built-IsStore =
        subst (λ k. IsStore c built (grown g pid from k)) (sym built_length)
          (record {
            sized = w.sized;
            swap_sized = rw (length-set s.bitmap_swap n true) w.swap_sized;
            small = w.small;
            mapped = built-IsPages;
            clocks = λ q active.
                HasClock-Extends c s built built-Extends (grown g pid from to)
                  (grown g pid from (suc to)) q (grown_same g pid from to) refl (w.clocks q active);
          })

  pub build_row-Grown :
      (s : Memory)
      → IsGrown s
      → 0 < free_in c s.bitmap_swap
      → (t : Memory) × (build_row c s ≡ some (length s.rows, t)) × SameTables s t × Grown s t 1
  unfolding build_row
  build_row-Grown s w free =
      let (n, found, clean, count) = find_page_free_count c s.bitmap_swap free in
      (
        built s w n clean,
        rw (found, set_bit_lem s.bitmap_swap n (get_elem?-lt s.bitmap_swap n false clean)),
        (refl, refl),
        record {
          extends = built-Extends s w n clean;
          store = built-IsStore s w n clean;
          more = length-append s.rows (fresh_row n ∷ []);
          fewer = count;
        },
      )
