-- ===== src/Update/Isolation/Published.antt =====
-- What an update changes is queued to be written out.
use mathlib.Core.List.{Memᴰ}
use hexdns.Common.{
  ℕ, ◌≡◌, ◌≢◌, refl, sym, ◌∙◌, ap, ◌⊎◌, inl, inr, Bool-cases, ◌==◌, List, [], ◌∷◌, ◌++◌, append-nil,
  append_assoc, All,
}
use hexdns.Dns.External.{External}
use hexdns.Dns.Store.{Row}
use hexdns.Update.Request.{Key, UpdateRequest, Wire}
use hexdns.Update.Tables.{
  Kind, address, dhcid, Body, rows, set_rows, Store, save_row, insert_row, remove_row, delete_row,
  enqueue, queues_delete,
}
use hexdns.Update.Handler.{update_query}
use hexdns.Update.Isolation.{rows-set_rows, IsWellKeyed, Stays}
use hexdns.Update.Isolation.Query.{update_query-Leaves, update_query-Stays}
use hexdns.Update.Apply.Steps.{IsStep, apply_rrs-IsStep}

-- All that happened to the tables is that DHCID rows went.
pub record OnlyLosesDhcid (s t : Store) : Type 0 where
  pub others : (k : Kind) → k ≢ dhcid → rows k t.db ≡ rows k s.db
  pub dhcid_rows : (r : Row (Body dhcid)) → Memᴰ r (rows dhcid t.db) → Memᴰ r (rows dhcid s.db)

OnlyLosesDhcid-refl : (s : Store) → OnlyLosesDhcid s s
OnlyLosesDhcid-refl s = record { others = λ k other. refl; dhcid_rows = λ r m. m }

OnlyLosesDhcid-trans :
    {s t u : Store} → OnlyLosesDhcid s t → OnlyLosesDhcid t u → OnlyLosesDhcid s u
OnlyLosesDhcid-trans h g = record {
  others = λ k other. g.others k other ∙ h.others k other;
  dhcid_rows = λ r m. h.dhcid_rows r (g.dhcid_rows r m);
}

abbrev NonEmpty : List ℕ → Type 0
NonEmpty l = (z : ℕ) × (zs : List ℕ) × (l ≡ z ∷ zs)

-- Something was queued, or only DHCID rows went.
record Told (s t : Store) : Type 0 where
  added : List ℕ
  queued : t.queued ≡ s.queued ++ added
  told : NonEmpty added ⊎ OnlyLosesDhcid s t

Told-refl : (s : Store) → Told s s
Told-refl s = record {
  added = [];
  queued = sym (append-nil s.queued);
  told = inr (OnlyLosesDhcid-refl s);
}

Told-trans : {s t u : Store} → Told s t → Told t u → Told s u
Told-trans {s} {t} {u} h g = record {
  added = h.added ++ g.added;
  queued =
      g.queued ∙ ap (λ (q : List ℕ). q ++ g.added) h.queued ∙ append_assoc s.queued h.added g.added;
  told = elim h.told [
    | inl (z, zs, e) ↦ inl (z, zs ++ g.added, ap (λ (q : List ℕ). q ++ g.added) e)
    | inr same ↦ elim g.told [
      | inl (z, zs, e) ↦ inl (append-NonEmpty h.added g.added z zs e)
      | inr same' ↦ inr (OnlyLosesDhcid-trans same same')
    ]
  ];
}
  where
    append-NonEmpty :
        (front back : List ℕ) (z : ℕ) (zs : List ℕ) → back ≡ z ∷ zs → NonEmpty (front ++ back)
    append-NonEmpty [] back z zs e = (z, zs, e)
    append-NonEmpty (x ∷ xs) back z zs e = (x, xs ++ back, refl)

-- A write that queues a zone.
Told-of_queue : (zone : ℕ) (s t : Store) → t.queued ≡ s.queued ++ zone ∷ [] → Told s t
Told-of_queue zone s t e = record { added = zone ∷ []; queued = e; told = inl (zone, [], refl) }

mem-delete_row :
    {D : Type 0} (pk : ℕ) (r : Row D) (rs : List (Row D)) → Memᴰ r (delete_row pk rs) → Memᴰ r rs
unfolding delete_row
mem-delete_row pk r [] m = m
mem-delete_row pk r (x ∷ rs) m = elim (Bool-cases (x.pk == pk)) [
  | inl same ↦ Memᴰ.tail (mem-delete_row pk r rs (rw same at m))
  | inr other ↦ behind (mem-delete_row pk r rs) (rw other at m)
]
  where
    behind :
        (Memᴰ r (delete_row pk rs) → Memᴰ r rs) → Memᴰ r (x ∷ delete_row pk rs) → Memᴰ r (x ∷ rs)
    behind back (Memᴰ.head e) = Memᴰ.head e
    behind back (Memᴰ.tail m) = Memᴰ.tail (back m)

remove_row-Told : (k : Kind) (r : Row (Body k)) (s : Store) → Told s (remove_row k r s)
unfolding remove_row enqueue queues_delete set_rows rows
remove_row-Told dhcid r s = record {
  added = [];
  queued = sym (append-nil s.queued);
  told = inr (record {
    others =
        rows-set_rows (λ i table. i ≢ dhcid → table ≡ rows i s.db) dhcid _ s.db
          (λ other. absurd (other refl)) (λ i other. refl);
    dhcid_rows = λ x. mem-delete_row r.pk x (rows dhcid s.db);
  });
}
remove_row-Told address r s = Told-of_queue r.zone s _ refl
remove_row-Told _ r s = Told-of_queue r.zone s _ refl

Told-IsStep : IsStep Told
unfolding save_row insert_row enqueue
Told-IsStep = record {
  same = Told-refl;
  trans = Told-trans;
  queue = λ zone s. Told-of_queue zone s _ refl;
  saved = λ k r s. Told-of_queue r.zone s _ refl;
  inserted = λ k r s. Told-of_queue r.zone s _ refl;
  removed = remove_row-Told;
}

-- The zone was queued, and nothing else; or nothing was queued, and only DHCID rows went.
pub record Published (zone : ℕ) (s t : Store) : Type 0 where
  pub added : List ℕ
  pub queued : t.queued ≡ s.queued ++ added
  pub one_zone : All (λ z. z ≡ zone) added
  pub told : ((zs : List ℕ) × (added ≡ zone ∷ zs)) ⊎ OnlyLosesDhcid s t

append-cancel : (l a b : List ℕ) → l ++ a ≡ l ++ b → a ≡ b
append-cancel [] a b h = h
append-cancel (x ∷ l) a b h = append-cancel l a b (cc h)

Published-of_Told : (zone : ℕ) (s t : Store) → Stays zone s t → Told s t → Published zone s t
Published-of_Told zone s t stays h =
    let same : h.added ≡ stays.added =
      append-cancel s.queued h.added stays.added (sym h.queued ∙ stays.queued) in
    record {
      added = stays.added;
      queued = stays.queued;
      one_zone = stays.one_zone;
      told = elim h.told [
        | inl (z, zs, e) ↦ inl (named stays.added z zs stays.one_zone (sym same ∙ e))
        | inr silent ↦ inr silent
      ];
    }
  where
    named :
        (l : List ℕ) (z : ℕ) (zs : List ℕ)
        → All (λ x. x ≡ zone) l
        → l ≡ z ∷ zs
        → (rest : List ℕ) × (l ≡ zone ∷ rest)
    named [] z zs all e = absurd (cc e)
    named (x ∷ xs) z zs all e = (xs, ap (λ y. y ∷ xs) all.0)

module _ ⦃E : External⦄ ⦃W : Wire⦄ where
  -- If the keys of every table are distinct, then whatever a signed update query comes to, refusals
  -- and exceptions included, the zones it queues to be written out, behind those that were queued
  -- before, are all its key's zone; and that zone is queued, unless the tables are as they were but
  -- for DHCID rows that were deleted.
  pub update_query-Published :
      (fuel : ℕ) (key : Key) (zone_name : E.Label) (request : UpdateRequest) (s : Store)
      → IsWellKeyed s
      → Published key.zone s (update_query fuel key zone_name request s).store
  update_query-Published fuel key zone_name request s keyed =
      Published-of_Told key.zone s _ (update_query-Stays fuel key zone_name request s keyed).0 (
        update_query-Leaves (Told s) fuel key zone_name request s (Told-refl s) λ zone own.
          apply_rrs-IsStep Told Told-IsStep key zone_name zone request.qclass request.upset s)
