-- ===== src/Config.antt =====
-- HCMonitor/config.h and HCMonitor/config.c: the settings, their defaults, and how setting.cfg
-- overrides them. An `int` is a ℤ; the float `pri_high_rate` is kept as its 32-bit pattern.
pub mod Laws
mod Tests
use Prim.Native.String.{String}
use hcmonitor.Prelude.{
  ℕ, zero, suc, ◌+◌, ◌/◌, ◌%◌, ◌^◌, ℤ, pos, negsuc, ◌+ℤ◌, truthy, ltb_ℤ, int_of_word, List, [], ◌∷◌,
  Bool, true, Option, none, some, set, option_or, if◌then◌else◌, ◌≡◌,
}

-- `struct mconfig`
pub record Mconfig : Type 0 where
  pub enable_http : ℤ
  pub enable_https : ℤ
  pub enable_hy : ℤ
  pub enable_mcc : ℤ
  pub server_port : ℤ
  pub pkt_len : ℤ
  pub rx_que : ℤ
  pub pr_que : ℤ
  pub interval : ℤ
  pub buffer_len : ℤ
  pub req_label : List ℤ
  pub resp_label : List ℤ
  pub label_offset : ℤ
  pub label_count : ℤ
  pub enable_pri : ℤ
  pub rsp_pri : ℤ
  pub pri_offset : ℤ
  pub pri_high_label : ℤ
  pub pri_low_label : ℤ
  pub pri_high_rate : ℕ
  pub enable_python : ℤ
  pub enable_sql : ℤ

-- `MAXLABEL`
abbrev pub max_label : ℕ
max_label = 2

-- `enum packet_type`, as the `char` that `node_data.type` holds.
abbrev pub m_req : ℤ
m_req = pos 1

abbrev pub m_rsp : ℤ
m_rsp = pos 2

abbrev pub m_uko : ℤ
m_uko = pos 3

-- `initConfig`; what it does not set is zero by its `memset`. 0x3d4ccccd is 0.05f.
unfoldable pub init_config : Mconfig
init_config = record {
  enable_http = pos 1;
  enable_https = pos 0;
  enable_hy = pos 0;
  enable_mcc = pos 0;
  server_port = pos 80;
  pkt_len = pos 0;
  rx_que = pos 1;
  pr_que = pos 1;
  interval = pos 60;
  buffer_len = pos 10000000;
  req_label = pos 0 ∷ pos 0 ∷ [];
  resp_label = pos 0 ∷ pos 0 ∷ [];
  label_offset = pos 6;
  label_count = pos 0;
  enable_pri = pos 1;
  rsp_pri = pos 0;
  pri_offset = pos 5;
  pri_high_label = pos 1;
  pri_low_label = pos 0;
  pri_high_rate = 0x3d4ccccd;
  enable_python = pos 0;
  enable_sql = pos 0;
}

-- What `getConfig` calls of libconfig on the file setting.cfg: whether it can be read, the scalar
-- lookups (`none` where the option is missing or of another type, so that nothing is stored; a
-- double is its 64-bit pattern), and the settings that hold the labels (`none` is NULL).
pub record Libconfig : Type 1 where
  pub Setting : Type 0
  pub read_file : Bool
  pub lookup_int : String → Option ℤ
  pub lookup_float : String → Option ℕ
  pub lookup : String → Option Setting
  pub setting_length : Option Setting → ℤ
  pub get_int_elem : Option Setting → ℕ → ℤ

-- What a call of `getConfig` leaves: its result, the settings, and the globals that it sets.
pub record Loaded : Type 0 where
  pub ret : ℤ
  pub conf : Mconfig
  pub enable_http : ℤ
  pub enable_mcc : ℤ

module _ (lib : Libconfig) where
  open lib use {read_file, lookup_int, lookup_float, lookup, setting_length, get_int_elem}

  -- `config_lookup_int(&cfg, name, &old)`
  abbrev pub read_int : String → ℤ → ℤ
  read_int name old = option_or (lookup_int name) old

  -- `label_count >= MAXLABEL ? MAXLABEL : label_count`, as the number of rounds of the `for`.
  abbrev pub label_rounds : ℤ → ℕ
  label_rounds (negsuc n) = 0
  label_rounds (pos zero) = 0
  label_rounds (pos (suc zero)) = 1
  label_rounds (pos (suc (suc n))) = max_label

  -- The loop over the labels, from index `n`.
  pub read_labels : ℕ → ℕ → Mconfig → Mconfig
  read_labels zero n c = c
  read_labels (suc rounds) n c = read_labels rounds (n + 1) (record c {
    req_label = set c.req_label n (get_int_elem (lookup "request_label") n);
    resp_label = set c.resp_label n (get_int_elem (lookup "response_label") n);
    label_count = c.label_count +ℤ pos 1;
  })

  -- The scalar options that are read before the labels.
  pub read_options : Mconfig → Mconfig
  read_options c = record c {
    enable_http = read_int "enableHTTP" c.enable_http;
    enable_https = read_int "enableHTTPS" c.enable_https;
    enable_hy = read_int "enableHY" c.enable_hy;
    enable_mcc = read_int "enableMCC" c.enable_mcc;
    enable_pri = read_int "enablePri" c.enable_pri;
    enable_python = read_int "enablePython" c.enable_python;
    enable_sql = read_int "enableSQL" c.enable_sql;
    rsp_pri = read_int "rspPri" c.rsp_pri;
    rx_que = read_int "rx_queues" c.rx_que;
    pr_que = read_int "pr_queues" c.pr_que;
    interval = read_int "interval" c.interval;
    buffer_len = read_int "buffer_pkt" c.buffer_len;
  }

  -- `config_lookup_float(&cfg, "PriOffset", &(conf->pri_high_rate))`: the library stores a double
  -- through the pointer, whose high half lands on the next field, `enable_python`.
  pub read_rate : Mconfig → Mconfig
  read_rate c = elim (lookup_float "PriOffset") [
    | none ↦ c
    | some d ↦ record c {
      pri_high_rate = d % 2 ^ 32;
      enable_python = int_of_word (d / 2 ^ 32 % 2 ^ 32);
    }
  ]

  -- The priority labels, through the locals `ph` and `pl`, which nothing initialises: the arguments
  -- are what the stack holds there.
  pub read_pri : ℤ → ℤ → Mconfig → Mconfig
  read_pri ph pl c =
      if truthy c.enable_pri
      then record c {
        pri_high_label = read_int "PriLabelHigh" ph;
        pri_low_label = read_int "PriLabelLow" pl;
      }
      else c

  -- The lookups behind the labels.
  pub read_tail : ℤ → ℤ → Mconfig → Mconfig
  read_tail ph pl c =
      let offsets : Mconfig = record c {
        label_offset = read_int "LabelOffset" c.label_offset;
        pri_offset = read_int "PriOffset" c.pri_offset;
      } in
      let rated = read_rate offsets in
      let served : Mconfig = record rated {
        server_port = read_int "server_port" rated.server_port;
        pkt_len = read_int "payload_len" rated.pkt_len;
      } in
      read_pri ph pl served

  -- `getConfig`; `http` and `mcc` are the globals before the call.
  pub get_config : ℤ → ℤ → ℤ → ℤ → Mconfig → Loaded
  get_config ph pl http mcc c =
      if read_file
      then loaded
      else record { ret = negsuc 0; conf = c; enable_http = http; enable_mcc = mcc }
    where
      c' : Mconfig
      c' =
          read_tail ph pl (
            read_labels (label_rounds (setting_length (lookup "request_label"))) 0 (read_options c))

      loaded : Loaded
      loaded = record {
        ret = pos 0;
        conf = c';
        enable_http = c'.enable_http;
        enable_mcc = c'.enable_mcc;
      }
