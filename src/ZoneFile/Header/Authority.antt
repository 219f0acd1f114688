-- ===== src/ZoneFile/Header/Authority.antt =====
-- The header of a zone file can always be written, and names its own primary server.
use mathlib.Core.List.{Memᴰ}
use mathlib.Core.List.Memᴰ
use hexdns.Common.{
  ℕ, ◌<◌, ◌≡◌, refl, List, [], ◌∷◌, ◌++◌, map, Bytes, codes, Result, ok, ◌>>=◌, if_both, ap,
}
use hexdns.Dns.External.{External}
use hexdns.Tsig.{Outside, bound}
use hexdns.ZoneFile.Keys.{PublicNumbers, Packing, get_dnskey, make_dnskey, make_zone_digest}
use hexdns.ZoneFile.Keys.Tag.{to_bytes-ok, make_key_tag-rfc_tag}
use hexdns.ZoneFile.Lines.{Texts, concat, newline}
use hexdns.ZoneFile.Header.{
  HeaderZone, primary_ns, ns_names, ns_line, soa_line, key_text, trust_text, generate_zone_header,
}

mem-map : {A B : Type 0} (f : A → B) (x : A) (xs : List A) → Memᴰ x xs → Memᴰ (f x) (map f xs)
mem-map f x [] m = absurd (Memᴰ.not-nil m)
mem-map f x (y ∷ ys) (Memᴰ.head e) = Memᴰ.head (ap f e)
mem-map f x (y ∷ ys) (Memᴰ.tail m) = Memᴰ.tail (mem-map f x ys m)

-- A result that is no exception.
abbrev Returns : {A : Type 0} → Result A → Type 0
Returns {A} r = (a : A) × (r ≡ ok a)

Returns->>= :
    {A B : Type 0} {first : Result A} (next : A → Result B)
    → Returns first
    → ((a : A) → Returns (next a))
    → Returns (first >>= next)
Returns->>= next (a, e) h = let (b, f) = h a in (b, rw e f)

module _ ⦃E : External⦄ ⦃O : Outside⦄ ⦃P : Packing⦄ ⦃T : Texts⦄ where
  primary_ns-mem :
      (names : List Bytes)
      → (primary : Bytes) × (primary_ns names ≡ ok primary) × Memᴰ primary (ns_names names)
  unfolding primary_ns ns_names
  primary_ns-mem [] = (codes "ns1.as207960.net.", refl, Memᴰ.head refl)
  primary_ns-mem (n ∷ ns) =
      let (first, is, m) = E.first-cons Bytes n ns in
      (
        T.str_label (E.of_str first),
        rw (is, primary_ns) refl,
        mem-map (λ name. T.str_label (E.of_str name)) first (n ∷ ns) m,
      )

  make_dnskey-Returns :
      (flags : ℕ) (nums : PublicNumbers)
      → nums.x < bound 32
      → nums.y < bound 32
      → Returns (make_dnskey flags nums)
  unfolding make_dnskey
  make_dnskey-Returns flags nums hx hy =
      Returns->>= _ (_, to_bytes-ok 32 nums.x hx)
        λ x. Returns->>= _ (_, to_bytes-ok 32 nums.y hy) λ y. (_, refl)

  key_text-Returns :
      (zone : HeaderZone) (zone_root : E.Label)
      → T.pubkey.x < bound 32
      → T.pubkey.y < bound 32
      → Returns (key_text zone zone_root)
  unfolding key_text make_zone_digest get_dnskey
  key_text-Returns zone zone_root hx hy =
      let dnskey = make_dnskey-Returns 257 T.pubkey hx hy in
      Returns->>= _
        (Returns->>= _ dnskey
          λ rd. Returns->>= _ (_, (make_key_tag-rfc_tag T.pubkey 257 hx hy).0) λ tag. (_, refl))
        λ digest. Returns->>= _ dnskey λ rd. (_, refl)

  trust_text-Returns :
      (zone : HeaderZone) (zone_root : E.Label)
      → T.pubkey.x < bound 32
      → T.pubkey.y < bound 32
      → Returns (trust_text zone zone_root)
  unfolding trust_text
  trust_text-Returns zone zone_root hx hy =
      if_both Returns zone.cds_disable (_, refl) (key_text-Returns zone zone_root hx hy)

  -- For a key whose coordinates fit 32 bytes the header can be written. It is the origin, an SOA
  -- record whose primary server is one of the zone's, an NS record for each of the zone's servers,
  -- and the keys.
  pub generate_zone_header-primary :
      (zone : HeaderZone) (zone_root : E.Label)
      → T.pubkey.x < bound 32
      → T.pubkey.y < bound 32
      → (primary : Bytes) × (trust : Bytes) × Memᴰ primary (ns_names zone.custom_ns)
        × (trust_text zone zone_root ≡ ok trust)
        × (generate_zone_header zone zone_root
            ≡ ok (
                codes "$ORIGIN "
                ++ (T.str_label zone_root
                    ++ (newline
                        ++ (soa_line primary
                            ++ (concat (map ns_line (ns_names zone.custom_ns)) ++ trust))))))
  unfolding generate_zone_header
  generate_zone_header-primary zone zone_root hx hy =
      let (primary, first, m) = primary_ns-mem zone.custom_ns in
      let (trust, trusted) = trust_text-Returns zone zone_root hx hy in
      (primary, trust, m, trusted, rw (first, trusted) refl)
