-- ===== src/Zigbee/Descriptors.antt =====
-- What the endpoint declares to ZBOSS: the attribute lists of src/zigbee_app.c, and the cluster list
-- and the simple descriptor of src/zb_meter_ep.h. The macros of the SDK that build a descriptor or a
-- whole list are parameters.
use n_rf52840_power_meter.Prelude.{ℕ, ◌+◌, Bool, true, false, List, [], ◌∷◌, ◌++◌, length}
use n_rf52840_power_meter.Zigbee.Write.{attr_metering_min_pulse_width_us_id}

-- The variables of `dev_ctx` that the lists point at.
pub data Variable : Type 0 where
  zcl_version app_version stack_version hw_version mf_name model_id date_code : Variable
  power_source location_id ph_env sw_ver : Variable
  identify_time : Variable
  current_summation status unit_of_measure summation_formatting device_type : Variable
  multiplier divisor min_pulse_width_us : Variable
  battery_voltage battery_percentage : Variable
  checkin_interval long_poll_interval short_poll_interval fast_poll_timeout : Variable
  checkin_interval_min long_poll_interval_min fast_poll_timeout_max : Variable

pub record Access : Type 0 where
  pub writable : Bool
  pub reporting : Bool

pub data ManufCode : Type 0 where
  standard nordic : ManufCode

-- `zb_zcl_attr_t`.
pub record Attr : Type 0 where
  pub id : ℕ
  pub access : Access
  pub manuf_code : ManufCode
  pub data_p : Variable

-- The SDK's macros, by the order of their arguments. `cluster_revision` is what the macro that starts a
-- list puts in front; the three macros that declare a whole list take the variables of it.
pub record Sdk : Type 0 where
  pub attr_id : Variable → ℕ
  pub cluster_revision : List Attr
  pub set_attr_desc : Variable → Attr
  pub set_attr_desc_m : Variable → Access → Attr
  pub set_manuf_spec_attr_desc : ℕ → Access → ManufCode → Variable → Attr
  pub declare_identify_attrib_list : List Variable → List Attr
  pub declare_basic_attrib_list_ext : List Variable → List Attr
  pub declare_poll_control_attrib_list : List Variable → List Attr
  pub metering_report_attr_count : ℕ
  pub ha_profile_id : ℕ

pub data Cluster : Type 0 where
  basic power_config identify metering poll_control : Cluster

pub data Role : Type 0 where
  server client : Role

-- `zb_zcl_cluster_desc_t`.
pub record ClusterDesc : Type 0 where
  pub cluster_id : Cluster
  pub attr_count : ℕ
  pub attrs : List Attr
  pub role : Role

pub record SimpleDesc : Type 0 where
  pub endpoint : ℕ
  pub profile_id : ℕ
  pub device_id : ℕ
  pub device_version : ℕ
  pub in_clusters : ℕ
  pub out_clusters : ℕ
  pub clusters : List Cluster

pub record EndpointDesc : Type 0 where
  pub simple : SimpleDesc
  pub cluster_count : ℕ
  pub clusters : List ClusterDesc
  pub report_slots : ℕ

abbrev pub meter_device_id : ℕ
meter_device_id = 0x0053

abbrev pub meter_device_ver : ℕ
meter_device_ver = 0

abbrev pub meter_in_cluster_num : ℕ
meter_in_cluster_num = 5

abbrev pub meter_out_cluster_num : ℕ
meter_out_cluster_num = 0

abbrev pub read_write : Access
read_write = record { writable = true; reporting = false }

abbrev pub read_only_reporting : Access
read_only_reporting = record { writable = false; reporting = true }

module _ (k : Sdk) where
  abbrev pub identify_attr_list : List Attr
  identify_attr_list = k.declare_identify_attrib_list (identify_time ∷ [])

  abbrev pub basic_attr_list : List Attr
  basic_attr_list = k.declare_basic_attrib_list_ext (
      zcl_version ∷ app_version ∷ stack_version ∷ hw_version ∷ mf_name ∷ model_id ∷ date_code
      ∷ power_source ∷ location_id ∷ ph_env ∷ sw_ver ∷ [])

  -- The attributes that the list names itself.
  abbrev pub metering_own_attrs : List Attr
  metering_own_attrs =
      k.set_attr_desc current_summation
      ∷ k.set_attr_desc status
      ∷ k.set_attr_desc unit_of_measure
      ∷ k.set_attr_desc summation_formatting
      ∷ k.set_attr_desc device_type
      ∷ k.set_attr_desc multiplier
      ∷ k.set_attr_desc_m divisor read_write
      ∷ k.set_manuf_spec_attr_desc attr_metering_min_pulse_width_us_id read_write nordic
          min_pulse_width_us
      ∷ []

  abbrev pub metering_attr_list : List Attr
  metering_attr_list = k.cluster_revision ++ metering_own_attrs

  abbrev pub power_config_attr_list : List Attr
  power_config_attr_list =
      k.cluster_revision
      ++ (k.set_attr_desc_m battery_voltage read_only_reporting
          ∷ k.set_attr_desc_m battery_percentage read_only_reporting
          ∷ [])

  abbrev pub poll_control_attr_list : List Attr
  poll_control_attr_list = k.declare_poll_control_attrib_list (
      checkin_interval ∷ long_poll_interval ∷ short_poll_interval ∷ fast_poll_timeout
      ∷ checkin_interval_min ∷ long_poll_interval_min ∷ fast_poll_timeout_max ∷ [])

  -- ZB_ZCL_CLUSTER_DESC as the cluster list uses it.
  abbrev pub cluster_desc : Cluster → List Attr → ClusterDesc
  cluster_desc c attrs = record {
    cluster_id = c;
    attr_count = length attrs;
    attrs = attrs;
    role = server;
  }

  -- ZB_DECLARE_METER_CLUSTER_LIST.
  abbrev pub app_clusters : List ClusterDesc
  app_clusters =
      cluster_desc power_config power_config_attr_list
      ∷ cluster_desc identify identify_attr_list
      ∷ cluster_desc basic basic_attr_list
      ∷ cluster_desc metering metering_attr_list
      ∷ cluster_desc poll_control poll_control_attr_list
      ∷ []

  -- ZB_ZCL_DECLARE_METER_SIMPLE_DESC.
  abbrev pub simple_desc : ℕ → SimpleDesc
  simple_desc ep = record {
    endpoint = ep;
    profile_id = k.ha_profile_id;
    device_id = meter_device_id;
    device_version = meter_device_ver;
    in_clusters = meter_in_cluster_num;
    out_clusters = meter_out_cluster_num;
    clusters = basic ∷ power_config ∷ identify ∷ metering ∷ poll_control ∷ [];
  }

  abbrev pub meter_report_attr_count : ℕ
  meter_report_attr_count = k.metering_report_attr_count + 2

  -- ZB_DECLARE_METER_EP.
  abbrev pub app_ep : ℕ → EndpointDesc
  app_ep ep = record {
    simple = simple_desc ep;
    cluster_count = length app_clusters;
    clusters = app_clusters;
    report_slots = meter_report_attr_count;
  }
