-- ===== src/Api/Handle.antt =====
-- The handle of include/rtss_mailbox_priv.h, the codes that the API returns, and what it asks of
-- the kernel. The constants and structures of rtss_mailbox_uapi.h, which the kernel driver
-- provides, are parameters.
use rtss_mailbox_umd.Base.{ℕ, List}
use rtss_mailbox_umd.Base.Int.{ℤ, neg, negsuc}

-- RTSS_MB_MODE_TX and RTSS_MB_MODE_RX
pub record Uapi : Type 0 where
  pub mode_tx : ℕ
  pub mode_rx : ℕ

-- struct rtss_mb_handle; a descriptor is -1 where it is not open
pub record Handle : Type 0 where
  pub fd : ℤ
  pub p_mb_base_addr : ℕ
  pub mb_size : ℕ
  pub subregion_index : ℕ
  pub signal_id : ℕ
  pub mode : ℕ
  pub dev : List ℕ
  pub event_fd : ℤ
  pub client_id : ℕ
  pub sender : ℕ
  pub prot : ℕ
  pub priority : ℕ
  pub subchan_item_size : ℕ

-- What `calloc` gives, with both descriptors set to -1.
abbrev pub fresh_handle : Handle
fresh_handle = record {
  fd = negsuc 0;
  p_mb_base_addr = 0;
  mb_size = 0;
  subregion_index = 0;
  signal_id = 0;
  mode = 0;
  dev = List.[];
  event_fd = negsuc 0;
  client_id = 0;
  sender = 0;
  prot = 0;
  priority = 0;
  subchan_item_size = 0;
}

-- the evfdinfo of struct rtssmb_devctl; its version, magic and size fields are constants
pub record Evfdinfo : Type 0 where
  pub signal_num : ℕ
  pub client_id : ℕ
  pub sender : ℕ
  pub prot : ℕ
  pub mode : ℕ
  pub event_fd : ℤ

-- a member that the initialiser of io_cmd does not name is 0
abbrev pub evfdinfo_of : Handle → ℕ → ℤ → Evfdinfo
evfdinfo_of h mode event_fd = record {
  signal_num = h.signal_id;
  client_id = h.client_id;
  sender = h.sender;
  prot = h.prot;
  mode = mode;
  event_fd = event_fd;
}

-- What a call of the kernel returns, and errno behind it.
pub record SysRet : Type 0 where
  pub ret : ℤ
  pub errno : ℕ

-- What the API does to the kernel and to the heap, in order.
pub data Act : Type 0 where
  calloc_handle free_handle : Act
  open_dev close_fd open_event_fd : ℤ → Act
  map_region unmap_region : ℕ → ℕ → Act
  get_mb_region : Act
  set_event_fd send_interrupt dis_interrupt : Evfdinfo → Act

abbrev pub eperm : ℤ
eperm = neg 1

abbrev pub enoent : ℤ
enoent = neg 2

abbrev pub eintr : ℤ
eintr = neg 4

abbrev pub eio : ℤ
eio = neg 5

abbrev pub ebadf : ℤ
ebadf = neg 9

abbrev pub eagain : ℤ
eagain = neg 11

abbrev pub enomem : ℤ
enomem = neg 12

abbrev pub einval : ℤ
einval = neg 22

abbrev pub enametoolong : ℤ
enametoolong = neg 36

abbrev pub emsgsize : ℤ
emsgsize = neg 90

abbrev pub econnreset : ℤ
econnreset = neg 104

abbrev pub enobufs : ℤ
enobufs = neg 105

abbrev pub etimedout : ℤ
etimedout = neg 110
