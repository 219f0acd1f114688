-- ===== src/Dns/Qtype.antt =====
-- `dnslib.QTYPE`: the numbers of the record types.
use hexdns.Common.{ℕ}

abbrev pub a : ℕ
a = 1

abbrev pub ns : ℕ
ns = 2

abbrev pub cname : ℕ
cname = 5

abbrev pub soa : ℕ
soa = 6

abbrev pub hinfo : ℕ
hinfo = 13

abbrev pub mx : ℕ
mx = 15

abbrev pub txt : ℕ
txt = 16

abbrev pub rp : ℕ
rp = 17

abbrev pub aaaa : ℕ
aaaa = 28

abbrev pub loc : ℕ
loc = 29

abbrev pub srv : ℕ
srv = 33

abbrev pub naptr : ℕ
naptr = 35

abbrev pub ds : ℕ
ds = 43

abbrev pub sshfp : ℕ
sshfp = 44

abbrev pub nsec : ℕ
nsec = 47

abbrev pub dhcid : ℕ
dhcid = 49

abbrev pub https : ℕ
https = 65

abbrev pub any : ℕ
any = 255

abbrev pub caa : ℕ
caa = 257

abbrev pub opt : ℕ
opt = 41

abbrev pub tsig : ℕ
tsig = 250

abbrev pub dnskey : ℕ
dnskey = 48
