-- ===== src/Zigbee/Declared.antt =====
-- The declared attributes of the Metering cluster against the callback that serves their writes.
use n_rf52840_power_meter.Prelude.{
  ℕ, suc, ◌≡◌, ◌≢◌, ◌⊎◌, inl, inr, refl, arith, sym, ◌∙◌, ap, Bool, true, false, if◌then◌else◌,
  List, [], ◌∷◌, All, All-at, All-map, All-append,
}
use mathlib.Core.List.{Memᴰ}
use n_rf52840_power_meter.Nvs.{NvsBackend}
use n_rf52840_power_meter.Zigbee.{ret_ok, Zboss, from_u24}
use n_rf52840_power_meter.Zigbee.Write.{
  CallbackParam, Meter, attr_metering_min_pulse_width_us_id, write_divisor, write_min_pulse_width,
  zcl_device_cb,
}
use n_rf52840_power_meter.Zigbee.Descriptors.{
  Variable, current_summation, status, unit_of_measure, summation_formatting, device_type,
  multiplier, divisor, min_pulse_width_us, Access, Sdk, Attr, ManufCode, read_write, nordic,
  metering_own_attrs, metering_attr_list, Cluster, basic, power_config, identify, metering,
  poll_control, ClusterDesc, app_ep,
}

-- The attributes of the list that keep the SDK's stock descriptor.
abbrev pub stock : List Variable
stock =
    current_summation ∷ status ∷ unit_of_measure ∷ summation_formatting ∷ device_type ∷ multiplier
    ∷ []

-- A coordinator may not write the attribute, and its identifier is neither of those that the callback
-- tells apart.
abbrev pub Untouched : Sdk → Attr → Type 0
Untouched k a =
    (a.access.writable ≡ false)
    × (a.id ≢ k.attr_id divisor)
    × (a.id ≢ attr_metering_min_pulse_width_us_id)

-- What the headers of ZBOSS say: the stock descriptors are read-only, a descriptor macro that takes an
-- access and a variable puts them into the descriptor, and no two of the identifiers are the same.
pub record SdkLaws (z : Zboss) (k : Sdk) : Type 0 where
  pub revision : All (Untouched k) k.cluster_revision
  pub stock_desc : All (λ v. Untouched k (k.set_attr_desc v)) stock
  pub desc_m :
      (v : Variable) (a : Access)
      → let d = k.set_attr_desc_m v a in (d.access ≡ a) × (d.data_p ≡ v) × (d.id ≡ k.attr_id v)
  pub manuf_spec_desc :
      (id : ℕ) (a : Access) (code : ManufCode) (v : Variable)
      → let d = k.set_manuf_spec_attr_desc id a code v in
        (d.access ≡ a) × (d.data_p ≡ v) × (d.id ≡ id)
  pub same_divisor : z.attr_metering_divisor_id ≡ k.attr_id divisor
  pub divisor_apart : k.attr_id divisor ≢ attr_metering_min_pulse_width_us_id

module _ {Fs : Type 0} (b : NvsBackend Fs) (z : Zboss) (k : Sdk) where
  -- ZBOSS calls back for the write of one attribute of the Metering cluster.
  abbrev pub written : Attr → CallbackParam → CallbackParam
  written a p = record p {
    device_cb_id = z.set_attr_value_cb_id;
    cluster_id = z.cluster_id_metering;
    attr_id = a.id;
  }

  -- The callback runs the attribute's own branch if a coordinator may write it, and nothing otherwise.
  abbrev pub Served : CallbackParam → Meter Fs → Attr → Type 0
  Served p m a =
      let done = zcl_device_cb b z (written a p) m in
      ((a.access.writable ≡ true)
        × (a.data_p ≡ divisor)
        × (done ≡ write_divisor b z (from_u24 p.data24) m))
      ⊎ ((a.access.writable ≡ true)
          × (a.data_p ≡ min_pulse_width_us)
          × (done ≡ write_min_pulse_width b z p.data16 m))
      ⊎ ((a.access.writable ≡ false) × (done ≡ (ret_ok, m)))

  untouched-Served :
      (p : CallbackParam) (m : Meter Fs) (a : Attr)
      → z.attr_metering_divisor_id ≡ k.attr_id divisor
      → Untouched k a
      → Served p m a
  unfolding zcl_device_cb
  untouched-Served p m a same u = inr (inr (u.0, ground (arith, same, u.1, u.2)))

  divisor-Served :
      (p : CallbackParam) (m : Meter Fs) (a : Attr)
      → a.access.writable ≡ true
      → a.data_p ≡ divisor
      → a.id ≡ z.attr_metering_divisor_id
      → a.id ≢ attr_metering_min_pulse_width_us_id
      → Served p m a
  unfolding zcl_device_cb
  divisor-Served p m a w d e ne = inl (w, d, ground (arith, e, ne))

  width-Served :
      (p : CallbackParam) (m : Meter Fs) (a : Attr)
      → a.access.writable ≡ true
      → a.data_p ≡ min_pulse_width_us
      → a.id ≡ attr_metering_min_pulse_width_us_id
      → Served p m a
  unfolding zcl_device_cb
  width-Served p m a w d e = inr (inl (w, d, ground (arith, e)))

  -- Of the attributes that the Metering cluster declares, a coordinator may write exactly those that
  -- the callback serves, and each is served by its own branch: with a ZBOSS whose stock descriptors
  -- are read-only and whose identifiers differ, a write of the Divisor goes to the Divisor's checks,
  -- one of the minimum pulse width to that attribute's, and for every other declared attribute, none
  -- of which is writable, the callback returns OK and changes nothing.
  pub metering_attrs-Served :
      (p : CallbackParam) (m : Meter Fs) (a : Attr)
      → SdkLaws z k
      → Memᴰ a (metering_attr_list k)
      → Served p m a
  metering_attrs-Served p m a laws mem =
      let quiet = λ (x : Attr). untouched-Served p m x laws.same_divisor in
      let stocked = λ (v : Variable). quiet (k.set_attr_desc v) in
      let s = laws.stock_desc in
      let dd = k.set_attr_desc_m divisor read_write in
      let dl = laws.desc_m divisor read_write in
      let width = attr_metering_min_pulse_width_us_id in
      let wd = k.set_manuf_spec_attr_desc width read_write nordic min_pulse_width_us in
      let wl = laws.manuf_spec_desc width read_write nordic min_pulse_width_us in
      let own : All (Served p m) (metering_own_attrs k) = (
        stocked current_summation s.0,
        (
          stocked status s.1.0,
          (
            stocked unit_of_measure s.1.1.0,
            (
              stocked summation_formatting s.1.1.1.0,
              (
                stocked device_type s.1.1.1.1.0,
                (
                  stocked multiplier s.1.1.1.1.1.0,
                  (
                    divisor-Served p m dd (ap (λ (x : Access). x.writable) dl.0) dl.1
                        (dl.2 ∙ sym laws.same_divisor) (λ e. laws.divisor_apart (sym dl.2 ∙ e)),
                    (width-Served p m wd (ap (λ (x : Access). x.writable) wl.0) wl.1 wl.2, tt),
                  ),
                ),
              ),
            ),
          ),
        ),
      ) in
      All-at (Served p m) (metering_attr_list k)
        (All-append (Served p m) k.cluster_revision (metering_own_attrs k)
          (All-map (Untouched k) (Served p m) quiet k.cluster_revision laws.revision) own)
        mem

same_cluster : Cluster → Cluster → Bool
same_cluster basic basic = true
same_cluster power_config power_config = true
same_cluster identify identify = true
same_cluster metering metering = true
same_cluster poll_control poll_control = true
same_cluster _ _ = false

times : Cluster → List Cluster → ℕ
times c [] = 0
times c (d ∷ ds) = let rest = times c ds in if same_cluster c d then suc rest else rest

ids : List ClusterDesc → List Cluster
ids [] = []
ids (d ∷ ds) = d.cluster_id ∷ ids ds

-- The simple descriptor advertises each cluster that has a descriptor, once, and gives their number.
clusters_advertised :
    (k : Sdk) (ep : ℕ) (c : Cluster)
    → let e = app_ep k ep in
      (times c e.simple.clusters ≡ 1)
      × (times c (ids e.clusters) ≡ 1)
      × (e.simple.in_clusters ≡ e.cluster_count)
unfolding times same_cluster ids
clusters_advertised k ep basic = (refl, refl, refl)
clusters_advertised k ep power_config = (refl, refl, refl)
clusters_advertised k ep identify = (refl, refl, refl)
clusters_advertised k ep metering = (refl, refl, refl)
clusters_advertised k ep poll_control = (refl, refl, refl)
