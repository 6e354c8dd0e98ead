-- ===== src/RiscV/Tags.antt =====
-- riscv/decode.ts: the tags of decoded instructions. riscv/cpu.ts repeats them.
use rp2350js.Base.{ℕ}

abbrev pub t_invalid : ℕ
t_invalid = 0

abbrev pub t_lb : ℕ
t_lb = 1

abbrev pub t_lh : ℕ
t_lh = 2

abbrev pub t_lw : ℕ
t_lw = 3

abbrev pub t_lbu : ℕ
t_lbu = 4

abbrev pub t_lhu : ℕ
t_lhu = 5

abbrev pub t_fence : ℕ
t_fence = 6

abbrev pub t_addi : ℕ
t_addi = 7

abbrev pub t_slli : ℕ
t_slli = 8

abbrev pub t_bseti : ℕ
t_bseti = 9

abbrev pub t_bclri : ℕ
t_bclri = 10

abbrev pub t_binvi : ℕ
t_binvi = 11

abbrev pub t_ctz : ℕ
t_ctz = 12

abbrev pub t_cpop : ℕ
t_cpop = 13

abbrev pub t_sext_h : ℕ
t_sext_h = 14

abbrev pub t_sext_b : ℕ
t_sext_b = 15

abbrev pub t_clz : ℕ
t_clz = 16

abbrev pub t_zip : ℕ
t_zip = 17

abbrev pub t_unzip : ℕ
t_unzip = 18

abbrev pub t_slti : ℕ
t_slti = 19

abbrev pub t_sltiu : ℕ
t_sltiu = 20

abbrev pub t_xori : ℕ
t_xori = 21

abbrev pub t_ori : ℕ
t_ori = 22

abbrev pub t_andi : ℕ
t_andi = 23

abbrev pub t_srli : ℕ
t_srli = 24

abbrev pub t_srai : ℕ
t_srai = 25

abbrev pub t_bexti : ℕ
t_bexti = 26

abbrev pub t_rori : ℕ
t_rori = 27

abbrev pub t_rev8 : ℕ
t_rev8 = 28

abbrev pub t_brev8 : ℕ
t_brev8 = 29

abbrev pub t_orc_b : ℕ
t_orc_b = 30

abbrev pub t_zext_h : ℕ
t_zext_h = 31

abbrev pub t_sb : ℕ
t_sb = 32

abbrev pub t_sh : ℕ
t_sh = 33

abbrev pub t_sw : ℕ
t_sw = 34

abbrev pub t_lr_w : ℕ
t_lr_w = 35

abbrev pub t_sc_w : ℕ
t_sc_w = 36

abbrev pub t_amoadd_w : ℕ
t_amoadd_w = 37

abbrev pub t_amoswap_w : ℕ
t_amoswap_w = 38

abbrev pub t_amoxor_w : ℕ
t_amoxor_w = 39

abbrev pub t_amoor_w : ℕ
t_amoor_w = 40

abbrev pub t_amoand_w : ℕ
t_amoand_w = 41

abbrev pub t_amomin_w : ℕ
t_amomin_w = 42

abbrev pub t_amomax_w : ℕ
t_amomax_w = 43

abbrev pub t_amominu_w : ℕ
t_amominu_w = 44

abbrev pub t_amomaxu_w : ℕ
t_amomaxu_w = 45

abbrev pub t_add : ℕ
t_add = 46

abbrev pub t_sub : ℕ
t_sub = 47

abbrev pub t_mul : ℕ
t_mul = 48

abbrev pub t_sll : ℕ
t_sll = 49

abbrev pub t_mulh : ℕ
t_mulh = 50

abbrev pub t_bset : ℕ
t_bset = 51

abbrev pub t_bclr : ℕ
t_bclr = 52

abbrev pub t_rol : ℕ
t_rol = 53

abbrev pub t_binv : ℕ
t_binv = 54

abbrev pub t_slt : ℕ
t_slt = 55

abbrev pub t_mulhsu : ℕ
t_mulhsu = 56

abbrev pub t_sh1add : ℕ
t_sh1add = 57

abbrev pub t_sltu : ℕ
t_sltu = 58

abbrev pub t_mulhu : ℕ
t_mulhu = 59

abbrev pub t_xor : ℕ
t_xor = 60

abbrev pub t_div : ℕ
t_div = 61

abbrev pub t_sh2add : ℕ
t_sh2add = 62

abbrev pub t_pack : ℕ
t_pack = 63

abbrev pub t_min : ℕ
t_min = 64

abbrev pub t_xnor : ℕ
t_xnor = 65

abbrev pub t_srl : ℕ
t_srl = 66

abbrev pub t_minu : ℕ
t_minu = 67

abbrev pub t_sra : ℕ
t_sra = 68

abbrev pub t_bext : ℕ
t_bext = 69

abbrev pub t_ror : ℕ
t_ror = 70

abbrev pub t_divu : ℕ
t_divu = 71

abbrev pub t_or : ℕ
t_or = 72

abbrev pub t_rem : ℕ
t_rem = 73

abbrev pub t_max : ℕ
t_max = 74

abbrev pub t_orn : ℕ
t_orn = 75

abbrev pub t_sh3add : ℕ
t_sh3add = 76

abbrev pub t_and : ℕ
t_and = 77

abbrev pub t_andn : ℕ
t_andn = 78

abbrev pub t_packh : ℕ
t_packh = 79

abbrev pub t_maxu : ℕ
t_maxu = 80

abbrev pub t_remu : ℕ
t_remu = 81

abbrev pub t_h3_block : ℕ
t_h3_block = 82

abbrev pub t_h3_unblock : ℕ
t_h3_unblock = 83

abbrev pub t_lui : ℕ
t_lui = 84

abbrev pub t_auipc : ℕ
t_auipc = 85

abbrev pub t_beq : ℕ
t_beq = 86

abbrev pub t_bne : ℕ
t_bne = 87

abbrev pub t_blt : ℕ
t_blt = 88

abbrev pub t_bge : ℕ
t_bge = 89

abbrev pub t_bltu : ℕ
t_bltu = 90

abbrev pub t_bgeu : ℕ
t_bgeu = 91

abbrev pub t_jalr : ℕ
t_jalr = 92

abbrev pub t_jal : ℕ
t_jal = 93

abbrev pub t_mret : ℕ
t_mret = 94

abbrev pub t_ecall : ℕ
t_ecall = 95

abbrev pub t_ebreak : ℕ
t_ebreak = 96

abbrev pub t_wfi : ℕ
t_wfi = 97

abbrev pub t_csrrw : ℕ
t_csrrw = 98

abbrev pub t_csrrs : ℕ
t_csrrs = 99

abbrev pub t_csrrc : ℕ
t_csrrc = 100

abbrev pub t_csrwi : ℕ
t_csrwi = 101

abbrev pub t_csrrsi : ℕ
t_csrrsi = 102

abbrev pub t_csrrci : ℕ
t_csrrci = 103

abbrev pub t_h3_bextm : ℕ
t_h3_bextm = 104

abbrev pub t_h3_bextmi : ℕ
t_h3_bextmi = 105

abbrev pub t_cm_push : ℕ
t_cm_push = 106

abbrev pub t_cm_pop : ℕ
t_cm_pop = 107

abbrev pub t_cm_popretz : ℕ
t_cm_popretz = 108

abbrev pub t_cm_popret : ℕ
t_cm_popret = 109

abbrev pub t_cm_mvsa01 : ℕ
t_cm_mvsa01 = 110

abbrev pub t_cm_mva01s : ℕ
t_cm_mva01s = 111
