-- ===== src/ZoneFile/Loc.antt =====
-- dd_to_dms and the lines of LOC records of tasks.py. Python's floats are a parameter.
use hexdns.Common.{ℕ, suc, Bool, if◌then◌else◌, List, [], ◌∷◌, ◌++◌, Bytes, codes, ℤ, pos, negsuc}
use hexdns.Dns.External.{External}
use hexdns.Dns.Store.{Row}
use hexdns.ZoneFile.Strings.{show}
use hexdns.ZoneFile.Lines.{Texts, rr_line, words, idna_label, comment, with_name}

-- `int`, the operators, `abs`, `round(…, 3)`, `< 0` and the text of floats.
pub record Floats : Type 1 where
  pub Float : Type 0
  pub trunc : Float → ℤ
  pub of_int : ℤ → Float
  pub sub : Float → Float → Float
  pub mul : Float → Float → Float
  pub div : Float → Float → Float
  pub abs_float : Float → Float
  pub round3 : Float → Float
  pub is_negative : Float → Bool
  pub str_float : Float → Bytes

-- `abs` of an integer.
unfoldable pub abs_int : ℤ → ℕ
abs_int (pos n) = n
abs_int (negsuc n) = suc n

module _ ⦃F : Floats⦄ where
  -- `LOCRecord`
  pub record LocColumns : Type 0 where
    pub latitude : F.Float
    pub longitude : F.Float
    pub altitude : F.Float
    pub size : F.Float
    pub hp : F.Float
    pub vp : F.Float

  unfoldable pub dd_to_dms : F.Float → ℕ × ℕ × F.Float
  unfolding abs_int
  dd_to_dms dd =
      let d1 = F.trunc dd in
      let m1 = F.trunc (F.mul (F.sub dd (F.of_int d1)) (F.of_int (pos 60))) in
      let left = F.sub (F.sub dd (F.of_int d1)) (F.div (F.of_int m1) (F.of_int (pos 60))) in
      (abs_int d1, abs_int m1, F.round3 (F.abs_float (F.mul left (F.of_int (pos 3600)))))

  -- The degrees, minutes and seconds, and the hemisphere.
  unfoldable pub angle : F.Float → Bytes → Bytes → List Bytes
  unfolding dd_to_dms show
  angle dd below above =
      let (d, m, s) = dd_to_dms dd in
      show d ∷ show m ∷ F.str_float s ∷ (if F.is_negative dd then below else above) ∷ []

  abbrev metres : F.Float → Bytes
  metres value = F.str_float value ++ codes "m"

  module _ ⦃E : External⦄ ⦃T : Texts⦄ where
    unfoldable pub loc_text : Row LocColumns → Bytes
    unfolding with_name idna_label comment rr_line words angle
    loc_text r = with_name (idna_label r.record_name) λ name.
        comment (codes "LOC record") (codes "hexdns_zonelocrecord") r.pk
        ++ rr_line name r.ttl (codes "LOC") (
            words (
              angle r.body.latitude (codes "S") (codes "N")
              ++ (angle r.body.longitude (codes "W") (codes "E")
                  ++ metres r.body.altitude
                    ∷ metres r.body.size
                    ∷ metres r.body.hp
                    ∷ metres r.body.vp
                    ∷ [])))
